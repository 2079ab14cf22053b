-- ===== src/Rtsp/Frames/Rounds.antt =====
-- rtsp.go: one round of the loop that reads packets.
use camonitor.Prelude.{ℕ, suc, ◌≡◌, refl, Bool, [], Option, length, Text}
use camonitor.Rtsp.Frames.{
  Inbound, frame, broken, out_of_fuel, read_interleaved, socket_error, fuel_error, forward,
  Forwarded, after_frame, read_packets,
}

module _ {Packet : Type 0} (unmarshal : Text → Option Packet) (accepts : ℕ → Packet → Bool) where
  -- What a round makes of what it has read.
  unfoldable pub dispatch : ℕ → Bool → Inbound → Forwarded unmarshal accepts
  dispatch fuel audio broken = ([], socket_error)
  dispatch fuel audio out_of_fuel = ([], fuel_error)
  dispatch fuel audio (frame channel payload rest) =
      after_frame unmarshal accepts channel (forward unmarshal accepts audio channel payload)
        (read_packets unmarshal accepts fuel audio rest)

  pub packets_of :
      (fuel : ℕ) (audio : Bool) (s : Text) (r : Inbound)
      → read_interleaved (suc (length s)) s ≡ r
      → read_packets unmarshal accepts (suc fuel) audio s ≡ dispatch fuel audio r
  unfolding read_packets dispatch
  packets_of fuel audio s broken e = rw (e, read_packets) refl
  packets_of fuel audio s out_of_fuel e = rw (e, read_packets) refl
  packets_of fuel audio s (frame channel payload rest) e = rw (e, read_packets) refl
