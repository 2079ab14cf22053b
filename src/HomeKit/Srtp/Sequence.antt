-- ===== src/HomeKit/Srtp/Sequence.antt =====
-- hksrtp.go: the numbering of the packets on the wire.
use camonitor.Prelude.{ℕ, ◌+◌, ◌%◌, ◌<◌, ◌≡◌, ◌≢◌, arith}
use camonitor.HomeKit.Srtp.{
  RtpPacket, SrtpForwarder, Written, ignored, marshal_failed, encrypt_failed, send_failed, put_out,
  restamp, next_seq,
}

-- What a write leaves of the forwarder's state, the counters aside.
abbrev Follows : SrtpForwarder → SrtpForwarder → Type 0
Follows f g =
    (g.ssrc ≡ f.ssrc)
    × (g.payload_type ≡ f.payload_type)
    × (g.closed ≡ f.closed)
    × (g.seq ≡ next_seq f.seq)

-- What is on the wire, if anything is, is the camera's packet with the forwarder's stamp.
abbrev Stamped : SrtpForwarder → RtpPacket → Written → Type 0
Stamped f p (put_out q) = q ≡ restamp f p
Stamped f p ignored = Unit {0}
Stamped f p marshal_failed = Unit {0}
Stamped f p encrypt_failed = Unit {0}
Stamped f p send_failed = Unit {0}

-- What follows by one path holds by another: of a write and its result together.
abbrev Wrote : SrtpForwarder → RtpPacket → SrtpForwarder × Written → Type 0
Wrote f p r = Follows f r.0 × Stamped f p r.1

-- The stamp of the k-th packet after a state.
abbrev pub numbered : SrtpForwarder → ℕ → RtpPacket → RtpPacket
numbered f k p = record p {
  ssrc = f.ssrc;
  payload_type = f.payload_type;
  sequence_number = (f.seq + k) % 65536;
}

-- The forwarder never reuses a number in fewer than 65536 packets.
pub numbers_apart :
    (f : SrtpForwarder) (i j : ℕ) (p q : RtpPacket)
    → i < j
    → j < i + 65536
    → (numbered f i p).sequence_number ≢ (numbered f j q).sequence_number
numbers_apart f i j p q h k e = absurd (omega arith)
