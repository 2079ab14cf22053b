-- ===== src/Rtsp/Frames.antt =====
-- rtsp.go: the frames that are interleaved with responses on the socket, and where their packets go.
--
-- The RTP library is a parameter, and so is what a track does with a packet. The fuel of a loop is the
-- number of bytes on the socket: each round takes at least one.
pub mod Rounds
pub mod Demux
pub mod Ends
use camonitor.Prelude.{
  ℕ, zero, suc, ◌+◌, ◌*◌, ◌≡◌, Bool, true, false, not, List, [], ◌∷◌, ◌++◌, Option, none, some,
  ◌==◌, if◌then◌else◌, length, take, drop, ltb, Text,
}
use camonitor.Rtsp.Response.{read_response, read_full}

abbrev pub chan_video_rtp : ℕ
chan_video_rtp = 0

abbrev pub chan_audio_rtp : ℕ
chan_audio_rtp = 2

-- A frame with what follows it, an error of the socket or of a response, or fuel that ran out.
pub data Inbound : Type 0 where
  frame : ℕ → Text → Text → Inbound
  broken : Inbound
  out_of_fuel : Inbound

-- A frame after its dollar sign: channel, length in two bytes, payload.
unfoldable pub read_frame : Text → Inbound
read_frame (channel ∷ high ∷ low ∷ s) = elim (read_full (high * 256 + low) s) [
  | none ↦ broken
  | some (payload, rest) ↦ frame channel payload rest
]
read_frame s = broken

unfoldable pub read_interleaved : ℕ → Text → Inbound
read_interleaved zero s = out_of_fuel
read_interleaved (suc fuel) [] = broken
read_interleaved (suc fuel) (first ∷ s) =
    if first == b'$' then read_frame s else elim (read_response (first ∷ s)) [
      | none ↦ broken
      | some (response, rest) ↦ read_interleaved fuel rest
    ]

-- Why reading ends.
pub data Stop : Type 0 where
  socket_error : Stop
  write_error : ℕ → Stop
  fuel_error : Stop

module _ {Packet : Type 0} (unmarshal : Text → Option Packet) (accepts : ℕ → Packet → Bool) where
  -- Whether a channel has a sink: the video track, and the audio writer if the handshake made one.
  abbrev pub has_sink : Bool → ℕ → Bool
  has_sink audio channel =
      if channel == chan_video_rtp then true else if channel == chan_audio_rtp then audio else false

  -- What one frame gives to its sink, and whether the sink took it.
  unfoldable pub forward : Bool → ℕ → Text → Option (Packet × Bool)
  forward audio channel payload =
      if has_sink audio channel
      then elim (unmarshal payload) [
        | none ↦ none
        | some packet ↦ some (packet, accepts channel packet)
      ]
      else none

  -- The packets that were written, by channel, and why reading ended.
  abbrev pub Forwarded : Type 0
  Forwarded = List (ℕ × Packet) × Stop

  abbrev pub after_frame : ℕ → Option (Packet × Bool) → Forwarded → Forwarded
  after_frame channel none later = later
  after_frame channel (some (packet, false)) later = ([], write_error channel)
  after_frame channel (some (packet, true)) later = ((channel, packet) ∷ later.0, later.1)

  unfoldable pub read_packets : ℕ → Bool → Text → Forwarded
  read_packets zero audio s = ([], fuel_error)
  read_packets (suc fuel) audio s = elim (read_interleaved (suc (length s)) s) [
    | broken ↦ ([], socket_error)
    | out_of_fuel ↦ ([], fuel_error)
    | frame channel payload rest ↦
        after_frame channel (forward audio channel payload) (read_packets fuel audio rest)
  ]
