-- ===== src/HomeKit/Srtp.antt =====
-- hksrtp.go: the packets that are forwarded to a HomeKit controller.
--
-- RTP's marshalling, SRTP's encryption and the socket are the environment of a write.
pub mod Sequence
mod Examples
use camonitor.Prelude.{
  ℕ, ◌+◌, ◌%◌, ◌≡◌, Bool, true, false, not, ◌&&◌, List, [], ◌∷◌, Option, none, some, ltb,
  if◌then◌else◌, length, Text,
}

pub record RtpPacket : Type 0 where
  pub ssrc : ℕ
  pub payload_type : ℕ
  pub sequence_number : ℕ
  pub timestamp : ℕ
  pub content : Text

pub record SrtpForwarder : Type 0 where
  pub ssrc : ℕ
  pub payload_type : ℕ
  pub mtu : ℕ
  pub seq : ℕ
  pub sent : ℕ
  pub closed : Bool
  pub warned_mtu : Bool

-- `seq` is random.
unfoldable pub new_srtp_forwarder : ℕ → ℕ → ℕ → ℕ → SrtpForwarder
new_srtp_forwarder ssrc payload_type mtu seq = record {
  ssrc = ssrc;
  payload_type = payload_type;
  mtu = mtu;
  seq = seq;
  sent = 0;
  closed = false;
  warned_mtu = false;
}

pub record Environment : Type 0 where
  pub marshal : RtpPacket → Option Text
  pub encrypt : Text → Option Text
  pub sends : Text → Bool

-- A write is ignored, fails, or puts this packet on the wire.
pub data Written : Type 0 where
  ignored marshal_failed encrypt_failed send_failed : Written
  put_out : RtpPacket → Written

unfoldable pub restamp : SrtpForwarder → RtpPacket → RtpPacket
restamp f p = record p { ssrc = f.ssrc; payload_type = f.payload_type; sequence_number = f.seq }

-- The sequence number of 16 bits after this one.
abbrev pub next_seq : ℕ → ℕ
next_seq seq = (seq + 1) % 65536

-- The first packet above the negotiated size is remarked on.
abbrev warn : ℕ → SrtpForwarder → SrtpForwarder
warn n f = if (ltb 0 f.mtu) && (ltb f.mtu n) then record f { warned_mtu = true } else f

encrypted : Environment → SrtpForwarder → RtpPacket → Option Text → SrtpForwarder × Written
encrypted e f q none = (f, encrypt_failed)
encrypted e f q (some s) =
    if e.sends s then (record f { sent = f.sent + 1 }, put_out q) else (f, send_failed)

marshalled : Environment → SrtpForwarder → RtpPacket → Option Text → SrtpForwarder × Written
unfolding encrypted
marshalled e f q none = (f, marshal_failed)
marshalled e f q (some raw) = encrypted e (warn (length raw) f) q (e.encrypt raw)

unfoldable pub write_rtp : Environment → RtpPacket → SrtpForwarder → SrtpForwarder × Written
unfolding restamp marshalled
write_rtp e p f =
    if f.closed
    then (f, ignored)
    else marshalled e (record f { seq = next_seq f.seq }) (restamp f p) (e.marshal (restamp f p))

unfoldable pub close : SrtpForwarder → SrtpForwarder
close f = record f { closed = true }

-- The camera's packets, written one after the other, and what came of each.
unfoldable pub write_all :
    List (Environment × RtpPacket) → SrtpForwarder → SrtpForwarder × List Written
unfolding write_rtp
write_all [] f = (f, [])
write_all ((e, p) ∷ ps) f =
    let later = write_all ps (write_rtp e p f).0 in (later.0, (write_rtp e p f).1 ∷ later.1)
