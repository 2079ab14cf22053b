-- ===== src/Rtsp/Examples.antt =====
-- Tests of the camera client, and its theorems at concrete inputs.
use camonitor.Prelude.{
  ℕ, suc, ◌≡◌, refl, Bool, true, List, [], ◌∷◌, ◌++◌, Option, none, some, arith, if◌then◌else◌,
  length, Text, codes, is_empty, text_eq, cut, cut_prefix, trim_space, to_lower, lookup, put, pos,
}
use camonitor.Decimal.{decimal, parse_int}
use camonitor.Door.Digest.{Md5}
use camonitor.Stream.Playlist.{lines, join_lines, trim_returns}
use camonitor.Rtsp.Response.{
  Response, read_response, read_line, trim_line, status_of, add_header, read_headers, read_full,
  read_body,
}
use camonitor.Rtsp.Frames.{socket_error, read_packets, forward}
use camonitor.Rtsp.Frames.Demux.{Message, sends, answers, wire, forwarded, read_packets-wire}
use camonitor.Rtsp.Sdp.{
  RtspMedia, found, find_media, sdp_medias, pick_media, resolve_control, fields, to_upper,
  new_media, add_codec, read_sdp_line, pick, video_codec, audio_codec,
}
use camonitor.Rtsp.Sdp.Pick.{
  is_video, is_audio, find_first, found_audio, chosen, find_media-two_searches,
}
use camonitor.Transcode.Negotiated.{Forwards, audio_media-Forwards}
use camonitor.Rtsp.Control.{RtspConn, new_rtsp_conn, Camera, print_request, request_of}
use camonitor.Rtsp.Control.Numbers.{IsNumbered}
use camonitor.Rtsp.Handshake.{handshake, session_id_only}
use camonitor.Rtsp.Handshake.Played.{Plays, handshake-Plays}

abbrev crlf : Text
crlf = 13 ∷ 10 ∷ []

-- The answer to a keepalive, with a body that starts like a frame.
abbrev pub alive : Text
alive =
    codes "RTSP/1.0 200 OK"
    ++ (crlf
        ++ (codes "Content-Length: 2"
            ++ (crlf ++ (codes "CSeq: 7" ++ (crlf ++ (crlf ++ codes "$$"))))))

abbrev alive_response : Response
alive_response = record {
  status_code = pos 200;
  headers = (codes "content-length", codes "2") ∷ (codes "cseq", codes "7") ∷ [];
  body = codes "$$";
}

response_runs : Unit {0}
unfolding read_response read_line trim_line status_of add_header read_headers read_full read_body
    cut cut_prefix trim_space to_lower lookup put text_eq
response_runs = tt

alive_read : read_response alive ≡ some (alive_response, [])
unfolding response_runs parse_int
alive_read = refl

-- A status line without a code, and a body that is cut short.
unread :
    (read_response (codes "RTSP/1.0" ++ (crlf ++ crlf)) ≡ none)
    × (read_response (
          codes "RTSP/1.0 200"
          ++ (crlf ++ (codes "Content-Length: 9" ++ (crlf ++ (crlf ++ codes "abc")))))
        ≡ none)
unfolding response_runs parse_int
unread = (refl, refl)

abbrev messages : List Message
messages =
    sends 0 (codes "video") ∷ answers alive ∷ sends 1 (codes "rtcp") ∷ sends 2 (codes "audio") ∷ []

abbrev packet_of : Text → Option Text
packet_of s = if is_empty s then none else some s

abbrev takes : ℕ → Text → Bool
takes channel packet = true

read_packets-wire_example :
    read_packets packet_of takes (suc (length (wire messages))) true (wire messages)
    ≡ forwarded packet_of takes true messages
read_packets-wire_example =
    read_packets-wire packet_of takes messages true
      (omega arith, ((alive_response, alive_read), (omega arith, (omega arith, tt))))

forwards :
    forwarded packet_of takes true messages
    ≡ ((0, codes "video") ∷ (2, codes "audio") ∷ [], socket_error)
unfolding forwarded forward
forwards = refl

-- A description with a video section that cannot be forwarded before the one that can.
description : Text
unfolding join_lines
description = join_lines (
    codes "v=0"
    ∷ codes "m=video 0 RTP/AVP 26"
    ∷ codes "a=rtpmap:26 JPEG/90000"
    ∷ codes "m=audio 0 RTP/AVP 97"
    ∷ codes "a=control:trackID=2"
    ∷ codes "a=rtpmap:97 l16/16000"
    ∷ codes "m=video 0 RTP/AVP 96"
    ∷ codes "a=rtpmap:96 H264/90000"
    ∷ codes "a=control:trackID=1"
    ∷ [])

abbrev has_scheme : Text → Bool
has_scheme s = (cut b':' s).2

abbrev the_video : RtspMedia
the_video = record {
  kind = codes "video";
  codec = codes "H264";
  control_url = codes "rtsp://cam/live/trackID=1";
}

abbrev the_audio : RtspMedia
the_audio = record {
  kind = codes "audio";
  codec = codes "L16";
  control_url = codes "rtsp://cam/live/trackID=2";
}

picks :
    find_media has_scheme description (codes "rtsp://cam/live") ≡ found the_video (some the_audio)
unfolding description find_media sdp_medias pick_media resolve_control fields to_upper new_media
    add_codec read_sdp_line pick video_codec audio_codec lines trim_returns cut cut_prefix lookup
    put text_eq
picks = refl

audio_media-Forwards_example : Forwards (codes "L16")
audio_media-Forwards_example =
    audio_media-Forwards has_scheme description (codes "rtsp://cam/live") the_video the_audio picks

find_media-two_searches_example :
    find_media has_scheme description (codes "rtsp://cam/live")
    ≡ chosen has_scheme
        (codes "rtsp://cam/live")
        (find_first has_scheme (is_video has_scheme) (sdp_medias description))
        (found_audio has_scheme
          (codes "rtsp://cam/live")
          (find_first has_scheme (is_audio has_scheme) (sdp_medias description)))
find_media-two_searches_example =
    find_media-two_searches has_scheme description (codes "rtsp://cam/live")

abbrev toy_md5 : Md5
toy_md5 = record { sum = λ s. s }

abbrev nonces : ℕ → Text
nonces n = n ∷ []

conn : RtspConn
unfolding new_rtsp_conn
conn = new_rtsp_conn (codes "rtsp://cam/live") (codes "admin") (codes "pw")

-- A camera that answers everything with 200, a session and a description.
abbrev agreeable : Camera
agreeable r = some (record {
  status_code = pos 200;
  headers = (codes "session", codes "abc;timeout=60") ∷ [];
  body = description;
})

printed :
    print_request (request_of (codes "OPTIONS") (codes "*") [] conn)
    ≡ codes "OPTIONS * RTSP/1.0\r\nCSeq: 1\r\nUser-Agent: camonitor/1\r\n\r\n"
unfolding conn print_request request_of decimal lookup
printed = refl

fresh-IsNumbered : IsNumbered conn
unfolding conn
fresh-IsNumbered = refl

handshake-Plays_example :
    IsNumbered (handshake toy_md5 nonces agreeable has_scheme true conn).0
    × ((handshake toy_md5 nonces agreeable has_scheme true conn).1 ≡ none
        → Plays toy_md5 nonces agreeable has_scheme
            (handshake toy_md5 nonces agreeable has_scheme true conn).0)
handshake-Plays_example =
    handshake-Plays toy_md5 nonces agreeable has_scheme true conn fresh-IsNumbered

session_cut : session_id_only (codes " abc ;timeout=60") ≡ codes "abc"
unfolding session_id_only cut trim_space
session_cut = refl
