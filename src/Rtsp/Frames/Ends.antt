-- ===== src/Rtsp/Frames/Ends.antt =====
-- rtsp.go: reading packets ends.
use camonitor.Prelude.{ℕ, ◌<◌, ◌≡◌, ◌≢◌, length, Text}
use camonitor.Rtsp.Frames.{Inbound, frame, out_of_fuel}

Progress : ℕ → Inbound → Type 0
Progress n r =
    (r ≢ out_of_fuel)
    × ((channel : ℕ) (payload rest : Text) → r ≡ frame channel payload rest → length rest < n)
