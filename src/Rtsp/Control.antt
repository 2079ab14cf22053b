-- ===== src/Rtsp/Control.antt =====
-- rtsp.go: requests on the connection, with digest authentication, and the handshake.
--
-- The camera is an argument: what `readResponse` makes of the bytes that follow a request, none for an
-- error; so are the random client nonces, one for each request. Headers are written in the order of the list.
pub mod Numbers
pub mod Requests
use camonitor.Prelude.{
  ℕ, suc, ◌+◌, ◌≡◌, Bool, true, false, not, ◌&&◌, ◌||◌, List, [], ◌∷◌, ◌++◌, Option, none, some,
  ◌==◌, if◌then◌else◌, Text, codes, is_empty, trim_space, cut, Map, lookup, put, ℤ, pos, eq_ℤ,
}
use camonitor.Decimal.{decimal}
use camonitor.Door.Digest.{Md5, DigestChallenge, parse_digest_challenge, build_digest_response}
use camonitor.Rtsp.Response.{Response, header, text_of}
use camonitor.Rtsp.Sdp.{Media, found, not_found, RtspMedia, find_media}

-- A request, with the session that it names, or the empty text.
pub record Request : Type 0 where
  pub method : Text
  pub uri : Text
  pub cseq : ℕ
  pub session : Text
  pub headers : Map Text

abbrev header_line : Text → Text → Text
header_line k v = k ++ (codes ": " ++ (v ++ codes "\r\n"))

header_lines : Map Text → Text
header_lines [] = []
header_lines ((k, v) ∷ hs) = header_line k v ++ header_lines hs

-- The bytes that are written.
unfoldable pub print_request : Request → Text
unfolding header_lines
print_request r =
    (r.method ++ (b' ' ∷ (r.uri ++ codes " RTSP/1.0\r\n")))
    ++ (header_line (codes "CSeq") (decimal r.cseq)
        ++ (header_line (codes "User-Agent") (codes "camonitor/1")
            ++ ((if is_empty r.session then [] else header_line (codes "Session") r.session)
                ++ (header_lines r.headers ++ codes "\r\n"))))

-- The connection, with the requests that were sent, the last first.
pub record RtspConn : Type 0 where
  pub request_uri : Text
  pub user : Text
  pub pass : Text
  pub cseq : ℕ
  pub session : Text
  pub audio_writer : Option Text
  pub video_codec : Text
  pub sent : List Request

-- `newRTSPConn`, for an address without its user and password.
unfoldable pub new_rtsp_conn : Text → Text → Text → RtspConn
new_rtsp_conn uri user pass = record {
  request_uri = uri;
  user = user;
  pass = pass;
  cseq = 0;
  session = [];
  audio_writer = none;
  video_codec = [];
  sent = [];
}

pub data DoError : Type 0 where
  no_response bad_challenge : DoError
  bad_status : ℤ → DoError

pub data Done : Type 0 where
  response : Response → Done
  do_error : DoError → Done

abbrev pub Camera : Type 0
Camera = Request → Option Response

-- The session of a request, unless its own headers name one.
abbrev pub session_of : RtspConn → Map Text → Text
session_of c headers =
    if is_empty (text_of (lookup (codes "Session") headers)) then c.session else []

unfoldable pub request_of : Text → Text → Map Text → RtspConn → Request
request_of method uri headers c = record {
  method = method;
  uri = uri;
  cseq = c.cseq + 1;
  session = session_of c headers;
  headers = headers;
}

unfoldable pub send : Camera → Text → Text → Map Text → RtspConn → RtspConn × Option Response
unfolding request_of
send camera method uri headers c = (
  record c { cseq = c.cseq + 1; sent = request_of method uri headers c ∷ c.sent },
  camera (request_of method uri headers c),
)

-- `OPTIONS`, sent while frames are read; its answer comes between them.
unfoldable pub send_keepalive : RtspConn → RtspConn
unfolding request_of
send_keepalive c = record c {
  cseq = c.cseq + 1;
  sent = request_of (codes "OPTIONS") c.request_uri [] c ∷ c.sent;
}

abbrev finish : Option Response → Done
finish none = do_error no_response
finish (some r) =
    if eq_ℤ r.status_code (pos 200) then response r else do_error (bad_status r.status_code)

module _ (md5 : Md5) (cnonces : ℕ → Text) (camera : Camera) where
  -- The Authorization header that answers a challenge.
  abbrev pub authorization : Text → Text → RtspConn → DigestChallenge → Text
  authorization method uri c chal =
      build_digest_response md5 method uri c.user c.pass (cnonces (c.cseq + 1)) chal

  retry : Text → Text → Map Text → RtspConn → Option DigestChallenge → RtspConn × Done
  retry method uri headers c none = (c, do_error bad_challenge)
  retry method uri headers c (some chal) =
      let again =
        send camera method uri
          (put (codes "Authorization") (authorization method uri c chal) headers) c in
      (again.0, finish again.1)

  after_send : Text → Text → Map Text → RtspConn × Option Response → RtspConn × Done
  unfolding retry
  after_send method uri headers (c, none) = (c, do_error no_response)
  after_send method uri headers (c, some r) =
      if eq_ℤ r.status_code (pos 401) && not (is_empty c.user)
      then retry method uri headers c (parse_digest_challenge (header r (codes "WWW-Authenticate")))
      else (c, finish (some r))

  unfoldable pub do_request : Text → Text → Map Text → RtspConn → RtspConn × Done
  unfolding after_send
  do_request method uri headers c = after_send method uri headers (send camera method uri headers c)
