-- ===== src/Rtsp/Handshake.antt =====
-- rtsp.go: the handshake, from OPTIONS to PLAY.
pub mod Played
use camonitor.Prelude.{
  ℕ, ◌+◌, ◌≡◌, Bool, true, false, not, ◌&&◌, ◌||◌, List, [], ◌∷◌, ◌++◌, Option, none, some,
  if◌then◌else◌, Text, codes, is_empty, trim_space, cut, Map,
}
use camonitor.Door.Digest.{Md5}
use camonitor.Rtsp.Response.{Response, header}
use camonitor.Rtsp.Sdp.{
  Media, found, not_found, SdpError, RtspMedia, find_media, is_one_of, audio_codecs,
}
use camonitor.Rtsp.Control.{RtspConn, Camera, DoError, Done, response, do_error, do_request}

-- Where a handshake ends without a stream.
pub data HandshakeError : Type 0 where
  options_failed describe_failed setup_failed play_failed : DoError → HandshakeError
  no_media : SdpError → HandshakeError
  no_session : HandshakeError

abbrev pub Outcome : Type 0
Outcome = RtspConn × Option HandshakeError

unfoldable pub session_id_only : Text → Text
session_id_only value = trim_space ((cut b';' value).0)

abbrev play_headers : Map Text
play_headers = (codes "Range", codes "npt=0-") ∷ []

abbrev transport : Text → Map Text
transport channels = (codes "Transport", codes "RTP/AVP/TCP;unicast;interleaved=" ++ channels) ∷ []

-- The address that PLAY is sent to.
abbrev session_uri : Response → RtspConn → Text
session_uri desc c =
    if is_empty (header desc (codes "Content-Base"))
    then c.request_uri
    else header desc (codes "Content-Base")

-- The codec of an audio media that is asked for: one that can be converted, if there is a track for it.
unfoldable pub wanted_audio : Bool → Option RtspMedia → Option RtspMedia
wanted_audio has_track none = none
wanted_audio has_track (some a) =
    if has_track && is_one_of a.codec audio_codecs then some a else none

module _ (md5 : Md5) (cnonces : ℕ → Text) (camera : Camera) (is_absolute : Text → Bool) where
  played : RtspConn × Done → Outcome
  played (c, do_error e) = (c, some (play_failed e))
  played (c, response r) = (c, none)

  unfoldable pub play : Text → RtspConn → Outcome
  unfolding played
  play uri c = played (do_request md5 cnonces camera (codes "PLAY") uri play_headers c)

  -- An error here leaves the stream without sound.
  audio_answered : Text → RtspConn × Done → RtspConn
  audio_answered codec (c, do_error e) = c
  audio_answered codec (c, response r) = record c { audio_writer = some codec }

  unfoldable pub set_up_audio : Option RtspMedia → RtspConn → RtspConn
  unfolding audio_answered
  set_up_audio none c = c
  set_up_audio (some a) c =
      audio_answered a.codec
        (do_request md5 cnonces camera (codes "SETUP") a.control_url (transport (codes "2-3")) c)

  with_session : Text → Option RtspMedia → RtspConn → Outcome
  unfolding set_up_audio play
  with_session uri audio c =
      if is_empty c.session then (c, some no_session) else play uri (set_up_audio audio c)

  video_answered : Text → Option RtspMedia → RtspConn × Done → Outcome
  unfolding with_session
  video_answered uri audio (c, do_error e) = (c, some (setup_failed e))
  video_answered uri audio (c, response r) =
      with_session uri audio (record c { session = session_id_only (header r (codes "Session")) })

  set_up : Bool → Text → Media → RtspConn → Outcome
  unfolding video_answered
  set_up has_track uri (not_found e) c = (c, some (no_media e))
  set_up has_track uri (found video audio) c = video_answered uri (wanted_audio has_track audio) (
      do_request md5 cnonces camera (codes "SETUP") video.control_url (transport (codes "0-1"))
        (record c { video_codec = video.codec }))

  described : Bool → RtspConn × Done → Outcome
  unfolding set_up
  described has_track (c, do_error e) = (c, some (describe_failed e))
  described has_track (c, response desc) =
      set_up has_track (session_uri desc c) (find_media is_absolute desc.body (session_uri desc c))
        c

  greeted : Bool → RtspConn × Done → Outcome
  unfolding described
  greeted has_track (c, do_error e) = (c, some (options_failed e))
  greeted has_track (c, response r) = described has_track (
      do_request md5 cnonces camera (codes "DESCRIBE") c.request_uri
        ((codes "Accept", codes "application/sdp") ∷ []) c)

  unfoldable pub handshake : Bool → RtspConn → Outcome
  unfolding greeted
  handshake has_track c =
      greeted has_track (do_request md5 cnonces camera (codes "OPTIONS") c.request_uri [] c)
