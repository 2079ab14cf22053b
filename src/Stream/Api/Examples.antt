-- ===== src/Stream/Api/Examples.antt =====
-- Tests of the camera surface and of stream tokens and playlists, and the theorems at concrete inputs.

use camonitor.Prelude.{
  ℕ, ◌*◌, ◌%◌, ◌≤◌, ◌≡◌, ◌≢◌, refl, true, false, List, [], ◌∷◌, ◌++◌, map, Option, none, some,
  arith, leb, if◌then◌else◌, All, Text, codes, text_eq, ne_of_text_eq, lookup, put, cut, cut_prefix,
  trim_space, filter_by, pos,
}
use camonitor.Clock.{second, from_unix, unix}
use camonitor.Decimal.{decimal, parse_int}
use camonitor.Encoding.{hex, base64_raw_url}
use camonitor.Encoding.Decode.{decode_base64_raw_url, IsByte}
use camonitor.Guest.Source.{Request}
use camonitor.Guest.Store.{
  saved, find, update_first, save, authenticate, hash_secret, hash_equal, token_matches, with_token,
  created_record,
}
use camonitor.Guest.Examples.{toy}
use camonitor.Stream.Sign.{Hmac, stream_mac, sign_stream, verify_stream}
use camonitor.Stream.Sign.Tokens.{verify_sound, one_camera_or_collision}
use camonitor.Stream.Hub.{
  new_stream_hub, acquire, acquire_cam, start_locked, set_cam, stop, release_cam, handler,
}
use camonitor.Stream.Playlist.{
  query_escape, add_query, lines, join_lines, stamp_line, sign_playlist_uris,
}
use camonitor.Stream.Playlist.Stamped.{addresses, addresses-sign_playlist_uris}
use camonitor.Stream.Api.{
  StreamApi, Readings, should_log_session, log_session, record_session, session_url, open_session,
  identify, session, hls, serve,
}
use camonitor.Stream.Api.Sessions.{SessionCall, run_sessions, session_url_works}

-- The first bytes of the message, cut to bytes: it stands in for HMAC.
abbrev low_bytes : Text → Text
low_bytes [] = []
low_bytes (c ∷ s) = c % 256 ∷ low_bytes s

low_bytes-IsByte : (s : Text) → All IsByte (low_bytes s)
low_bytes-IsByte [] = tt
low_bytes-IsByte (c ∷ s) = (omega arith, low_bytes-IsByte s)

abbrev toy_hmac : Hmac
toy_hmac = record {
  sum = λ key message. low_bytes message;
  sum-IsByte = λ key message. low_bytes-IsByte message;
}

stream_runs : Unit {0}
unfolding text_eq cut cut_prefix trim_space filter_by lookup put decimal parse_int hex
    base64_raw_url decode_base64_raw_url find update_first save authenticate hash_secret hash_equal
    token_matches with_token created_record stream_mac sign_stream verify_stream new_stream_hub
    acquire acquire_cam start_locked set_cam stop release_cam handler query_escape add_query lines
    join_lines stamp_line sign_playlist_uris should_log_session log_session record_session
    session_url open_session identify session hls serve run_sessions
stream_runs = tt

abbrev secret : Text
secret = codes "secret"

abbrev token : Text
token = codes "1700000900.Z2F0ZXwxNzAwMDAwOTAw"

signs : sign_stream toy_hmac secret (codes "gate") (from_unix 1700000900) ≡ token
unfolding stream_runs
signs = refl

accepts :
    (verify_stream toy_hmac secret (codes "gate") token (from_unix 1700000900) ≡ true)
    × (verify_stream toy_hmac secret (codes "gate") token (from_unix 1700000901) ≡ false)
    × (verify_stream toy_hmac secret (codes "door") token (from_unix 1700000900) ≡ false)
unfolding stream_runs
accepts = (refl, refl, refl)

stamps :
    sign_playlist_uris
      (codes "#EXTM3U"
        ++ (10 ∷ codes "#EXT-X-MAP:URI=\"init.mp4\",X=\"1\""
            ++ (10 ∷ codes "seg.mp4?a=1" ++ (13 ∷ 10 ∷ []))))
      (codes "1.a b")
    ≡ codes "#EXTM3U"
      ++ (10 ∷ codes "#EXT-X-MAP:URI=\"init.mp4?s=1.a+b\",X=\"1\""
          ++ (10 ∷ codes "seg.mp4?a=1&s=1.a+b" ++ (13 ∷ 10 ∷ [])))
unfolding stream_runs
stamps = refl

accepted : verify_stream toy_hmac secret (codes "gate") token (from_unix 1700000900) ≡ true
accepted = accepts.0

verify_sound_example :
    (exp_unix : Text) × (sig : Text) × (exp : ℕ) × (token ≡ exp_unix ++ (b'.' ∷ sig))
    × (parse_int exp_unix ≡ some (pos exp))
    × (unix (from_unix 1700000900) ≤ exp)
    × (decode_base64_raw_url sig ≡ some (stream_mac toy_hmac secret (codes "gate") exp_unix))
verify_sound_example =
    verify_sound toy_hmac secret (codes "gate") token (from_unix 1700000900) accepted

-- A sum of one byte collides.
abbrev one_byte : Hmac
one_byte = record { sum = λ key message. 7 ∷ []; sum-IsByte = λ key message. (omega arith, tt) }

accepts_all :
    (verify_stream one_byte secret (codes "gate") (codes "1700000900.Bw") (from_unix 1700000900)
      ≡ true)
    × (verify_stream one_byte secret (codes "door") (codes "1700000900.Bw") (from_unix 9) ≡ true)
unfolding stream_runs
accepts_all = (refl, refl)

gate_not_door : codes "gate" ≢ codes "door"
unfolding text_eq
gate_not_door = ne_of_text_eq (codes "gate") (codes "door") refl

one_camera_or_collision_example :
    (m : Text) × (m' : Text) × (m ≢ m') × (one_byte.sum secret m ≡ one_byte.sum secret m')
one_camera_or_collision_example =
    one_camera_or_collision one_byte secret (codes "gate") (codes "door") (codes "1700000900.Bw")
      (from_unix 1700000900) (from_unix 9) gate_not_door accepts_all.0 accepts_all.1

abbrev request : Request
request = record {
  authorization = codes "Bearer a";
  forwarded_for = [];
  remote_addr = codes "10.0.0.7:5123";
  user_agent = codes "Phone";
}

abbrev sources : Text → Option Text
sources name = if text_eq name (codes "gate") then some (codes "rtsp://nvr") else none

abbrev api : StreamApi
api = record {
  store = record {
    guests =
        with_token toy (codes "a") 3 (created_record toy (codes "1") (codes "Ann") (codes "CODE") 1)
        ∷ [];
    file = none;
  };
  hub = new_stream_hub sources;
  secret = secret;
  audit = none;
  last_logged_at = [];
}

abbrev readings : Readings
readings = record {
  authenticated_at = from_unix 1700000000;
  expiry_from = from_unix 1700000000;
  throttled_at = from_unix 1700000000;
  logged_at = from_unix 1700000000;
  seen_saved = saved;
  audit_works = true;
}

abbrev address : Text
address = codes "/guest/cam/gate/hls/index.m3u8?s=" ++ token

gets_address :
    (session toy toy_hmac readings request (codes "gate") api).0 ≡ (200, some (address, 1700000900))
unfolding stream_runs
gets_address = refl

serves_playlist :
    (hls toy toy_hmac (codes "gate") token (from_unix 1700000500) true (200, codes "seg.mp4") api).0
    ≡ (200, codes "seg.mp4?s=" ++ token)
unfolding stream_runs
serves_playlist = refl

session_url_works_example :
    (sig : Text) × (address
      ≡ codes "/guest/cam/" ++ (codes "gate" ++ (codes "/hls/index.m3u8?s=" ++ query_escape sig)))
    × (verify_stream toy_hmac
          (session toy toy_hmac readings request (codes "gate") api).1.secret
          (codes "gate")
          sig
          (from_unix 1700000500)
        ≡ leb (unix (from_unix 1700000500)) 1700000900)
session_url_works_example =
    session_url_works toy toy_hmac readings request (codes "gate") api address 1700000900
      (from_unix 1700000500) (omega arith) gets_address

abbrev asked_between : List SessionCall
asked_between =
    record { guest_id = codes "1"; camera = codes "gate"; now = 70 * second }
    ∷ record { guest_id = codes "2"; camera = codes "gate"; now = 80 * second }
    ∷ []

logged_twice :
    (should_log_session (codes "1") (codes "gate") (60 * second) []).0 ≡ true
    × ((should_log_session (codes "1") (codes "gate") (960 * second) (
          run_sessions asked_between
            (should_log_session (codes "1") (codes "gate") (60 * second) []).1)).0
        ≡ true)
unfolding stream_runs
logged_twice = (refl, refl)

addresses-sign_playlist_uris_example :
    addresses (sign_playlist_uris (codes "seg.mp4") (codes "1.a b"))
    ≡ map (λ uri. add_query uri (codes "1.a b")) (addresses (codes "seg.mp4"))
addresses-sign_playlist_uris_example =
    addresses-sign_playlist_uris (codes "seg.mp4") (codes "1.a b")
