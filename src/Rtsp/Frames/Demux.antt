-- ===== src/Rtsp/Frames/Demux.antt =====
-- rtsp.go: frames and responses that are interleaved are told apart.
use camonitor.Prelude.{
  ℕ, zero, suc, ◌+◌, ◌*◌, ◌/◌, ◌%◌, ◌<◌, ◌≡◌, ◌∙◌, refl, sym, ap, Bool, false, inl, inr, List, [],
  ◌∷◌, ◌++◌, Option, some, arith, ◌==◌, ==_iff, length, ltb, length-append, take-append_self,
  drop-append_self, Bool-cases, All, Text,
}
use camonitor.Rtsp.Response.{Response, read_response, read_full}
use camonitor.Rtsp.Response.Prefix.{read_response-append, read_response-shorter, response-ne-frame}
use camonitor.Rtsp.Frames.{
  Inbound, frame, broken, read_frame, read_interleaved, socket_error, forward, Forwarded,
  after_frame, read_packets,
}
use camonitor.Rtsp.Frames.Rounds.{dispatch, packets_of}

-- A message of the camera: a frame, or a response.
pub data Message : Type 0 where
  sends : ℕ → Text → Message
  answers : Text → Message

-- A payload has a length of 16 bits; a response is read to its last byte.
abbrev pub IsMessage : Message → Type 0
IsMessage (sends channel payload) = length payload < 65536
IsMessage (answers s) = (r : Response) × (read_response s ≡ some (r, []))

unfoldable pub bytes : Message → Text
bytes (sends channel payload) =
    b'$' ∷ channel ∷ (length payload / 256) ∷ (length payload % 256) ∷ payload
bytes (answers s) = s

unfoldable pub wire : List Message → Text
unfolding bytes
wire [] = []
wire (m ∷ ms) = bytes m ++ wire ms

read_full-append_self : (s t : Text) (n : ℕ) → length s ≡ n → read_full n (s ++ t) ≡ some (s, t)
unfolding read_full
read_full-append_self s t n e =
    let fits : ltb (length (s ++ t)) n ≡ false = ground (arith, length-append s t) in
    rw (fits, take-append_self n s t e, drop-append_self n s t e) refl

read_frame-sends :
    (channel : ℕ) (payload t : Text)
    → length payload < 65536
    → read_frame (channel ∷ (length payload / 256) ∷ (length payload % 256) ∷ (payload ++ t))
      ≡ frame channel payload t
unfolding read_frame
read_frame-sends channel payload t h =
    let e : length payload ≡ length payload / 256 * 256 + length payload % 256 = omega arith in
    rw (read_full-append_self payload t _ e, read_frame) refl

read-answer :
    (fuel : ℕ) (s t : Text) (r : Response)
    → read_response s ≡ some (r, [])
    → read_interleaved (suc fuel) (s ++ t) ≡ read_interleaved fuel t
unfolding read_interleaved
read-answer fuel [] t r h = absurd (omega (arith, read_response-shorter [] r [] h))
read-answer fuel (c ∷ s) t r h =
    let more : read_response (c ∷ (s ++ t)) ≡ some (r, t) = read_response-append (c ∷ s) t r [] h in
    elim (Bool-cases (c == b'$')) [
      | inl e ↦
          let d : c ≡ b'$' = (==_iff c b'$').0 e in
          absurd (cc (ap (λ k. read_response (k ∷ s)) d, response-ne-frame s, h))
      | inr e ↦ rw e (rw (more, read_interleaved) refl)
    ]

-- The next frame among the messages.
next : List Message → Inbound
next [] = broken
next (sends channel payload ∷ ms) = frame channel payload (wire ms)
next (answers s ∷ ms) = next ms

read_interleaved-wire :
    (ms : List Message) (fuel : ℕ)
    → All IsMessage ms
    → length (wire ms) < fuel
    → read_interleaved fuel (wire ms) ≡ next ms
unfolding read_interleaved wire next
read_interleaved-wire ms zero w h = absurd (omega arith)
read_interleaved-wire [] (suc fuel) w h = refl
read_interleaved-wire (sends channel payload ∷ ms) (suc fuel) w h =
    read_frame-sends channel payload (wire ms) w.0
read_interleaved-wire (answers s ∷ ms) (suc fuel) w h =
    let taken = read_response-shorter s w.0.0 [] w.0.1 in
    read-answer fuel s (wire ms) w.0.0 w.0.1
    ∙ read_interleaved-wire ms fuel w.1 (omega (arith, length-append s (wire ms), taken))

module _ {Packet : Type 0} (unmarshal : Text → Option Packet) (accepts : ℕ → Packet → Bool) where
  -- What messages give to the sinks: each frame in order, responses nothing, up to a write that fails.
  unfoldable pub forwarded : Bool → List Message → Forwarded unmarshal accepts
  forwarded audio [] = ([], socket_error)
  forwarded audio (sends channel payload ∷ ms) =
      after_frame unmarshal accepts channel (forward unmarshal accepts audio channel payload)
        (forwarded audio ms)
  forwarded audio (answers s ∷ ms) = forwarded audio ms

  packets_next :
      (fuel : ℕ) (audio : Bool) (ms : List Message)
      → All IsMessage ms
      → read_packets unmarshal accepts (suc fuel) audio (wire ms)
        ≡ dispatch unmarshal accepts fuel audio (next ms)
  packets_next fuel audio ms w =
      packets_of unmarshal accepts fuel audio (wire ms) (next ms)
        (read_interleaved-wire ms (suc (length (wire ms))) w (omega arith))

  packets_wire :
      (ms : List Message) (audio : Bool) (fuel : ℕ)
      → All IsMessage ms
      → length (wire ms) < fuel
      → read_packets unmarshal accepts fuel audio (wire ms) ≡ forwarded audio ms
  unfolding wire next dispatch forwarded
  packets_wire ms audio zero w h = absurd (omega arith)
  packets_wire [] audio (suc fuel) w h = packets_next fuel audio [] w
  packets_wire (sends channel payload ∷ ms) audio (suc fuel) w h =
      packets_next fuel audio (sends channel payload ∷ ms) w
      ∙ ap (after_frame unmarshal accepts channel (forward unmarshal accepts audio channel payload))
          (packets_wire ms audio fuel w.1 (omega (arith, length-append payload (wire ms))))
  packets_wire (answers s ∷ ms) audio (suc fuel) w h =
      packets_next fuel audio (answers s ∷ ms) w
      ∙ sym (packets_next fuel audio ms w.1)
      ∙ packets_wire ms audio (suc fuel) w.1 (omega (arith, length-append s (wire ms)))

  -- What a camera sends, frames and responses interleaved in any way, such as the answers to keepalives,
  -- is read as its frames in order: each is given to the sink of its channel, no frame is lost to a
  -- response and none is made up, until a sink refuses a packet or the socket ends.
  pub read_packets-wire :
      (ms : List Message) (audio : Bool)
      → All IsMessage ms
      → read_packets unmarshal accepts (suc (length (wire ms))) audio (wire ms) ≡ forwarded audio ms
  read_packets-wire ms audio w = packets_wire ms audio (suc (length (wire ms))) w (omega arith)
