-- ===== src/Stream/Api.antt =====
-- streamapi.go: the camera surface for guests. A session request bears the device token and is answered
-- with a signed address; the playlist and the segments bear the token of that address.
--
-- The clock's readings are arguments, and so is what the HLS library answers to a request. The texts of
-- error responses are left out.
pub mod Sessions
mod Examples
use camonitor.Prelude.{
  ℕ, ◌+◌, ◌*◌, Bool, true, false, not, ◌&&◌, List, [], ◌∷◌, ◌++◌, Option, none, some, ltb, ◌==◌,
  if◌then◌else◌, length, Text, codes, text_eq, Map, lookup, put, cut_prefix,
}
use camonitor.Clock.{Time, Duration, minute, since, unix}
use camonitor.Audit.{AuditEvent, AuditStore}
use camonitor.Audit
use camonitor.Guest.Source.{Request, client_source}
use camonitor.Guest.Store.{Sha256, Guest, GuestStore, SaveOutcome, authenticate}
use camonitor.Guest.Api.{bearer}
use camonitor.Stream.Sign.{Hmac, sign_stream, verify_stream}
use camonitor.Stream.Hub.{StreamHub, StreamCam, acquire, release_cam, set_cam, handler}
use camonitor.Stream.Playlist.{query_escape, sign_playlist_uris}

abbrev pub stream_session_ttl : Duration
stream_session_ttl = 15 * minute

abbrev pub min_stream_secret_len : ℕ
min_stream_secret_len = 32

pub record StreamApi : Type 0 where
  pub store : GuestStore
  pub hub : StreamHub
  pub secret : Text
  pub audit : AuditStore
  pub last_logged_at : Map Time

unfoldable pub new_stream_api : GuestStore → StreamHub → Text → AuditStore → Option StreamApi
new_stream_api store hub secret audit =
    if ltb (length secret) min_stream_secret_len
    then none
    else some
        (record { store = store; hub = hub; secret = secret; audit = audit; last_logged_at = [] })

-- The clock's readings and the outcomes of the writes during a session request.
pub record Readings : Type 0 where
  pub authenticated_at : Time
  pub expiry_from : Time
  pub throttled_at : Time
  pub logged_at : Time
  pub seen_saved : SaveOutcome
  pub audit_works : Bool

unfoldable pub record_session : Readings → Request → Text → Text → Text → StreamApi → StreamApi
record_session env r result guest_id guest_label a =
    let (ip, device) = client_source r in
    record a {
      audit =
          (Audit.log env.audit_works
            (record {
              time = env.logged_at;
              guest_id = guest_id;
              guest_label = guest_label;
              action = codes "cam";
              result = result;
              source_ip = ip;
              source_device = device;
            })
            a.audit).1;
    }

abbrev pub session_key : Text → Text → Text
session_key guest_id camera = guest_id ++ (b'/' ∷ camera)

abbrev pub logged_recently : Time → Option Time → Bool
logged_recently now none = false
logged_recently now (some last) = ltb (since now last) stream_session_ttl

unfoldable pub should_log_session : Text → Text → Time → Map Time → Bool × Map Time
should_log_session guest_id camera now logged =
    if logged_recently now (lookup (session_key guest_id camera) logged)
    then (false, logged)
    else (true, put (session_key guest_id camera) now logged)

-- The status, and the address with its expiry where there is one.
abbrev pub SessionReply : Type 0
SessionReply = ℕ × Option (Text × ℕ)

-- `maybe_record` is the audit of a session that is not throttled.
unfoldable pub log_session : Readings → Request → Text → Guest → StreamApi → StreamApi
unfolding record_session should_log_session
log_session env r camera g a =
    let (new, logged) = should_log_session g.id camera env.throttled_at a.last_logged_at in
    let a' = record a { last_logged_at = logged } in
    if new then record_session env r (codes "success") g.id g.label a' else a'

module _ (d : Sha256) (h : Hmac) where
  unfoldable pub session_url : Text → Text → Time → Text
  session_url secret camera exp =
      codes "/guest/cam/"
      ++ (camera ++ (codes "/hls/index.m3u8?s=" ++ query_escape (sign_stream h secret camera exp)))

  -- Past the token: an unknown camera is not found.
  unfoldable pub open_session :
      Readings → Request → Text → Guest → StreamApi → SessionReply × StreamApi
  unfolding log_session
  open_session env r camera g a =
      let (known, hub) = handler camera a.hub in
      let a' = record a { hub = hub } in
      if known
      then (let exp = env.expiry_from + stream_session_ttl in
          ((200, some (session_url a.secret camera exp, unix exp)), log_session env r camera g a'))
      else ((404, none), a')

  -- The guest whose token the request bears, and the surface after the visit is noted.
  unfoldable pub identify : Readings → Request → StreamApi → Option Guest × StreamApi
  identify env r a =
      let (token, has_bearer) = bearer r in
      let (guest, store) = authenticate d token env.authenticated_at env.seen_saved a.store in
      (if has_bearer then guest else none, record a { store = store })

  unfoldable pub session : Readings → Request → Text → StreamApi → SessionReply × StreamApi
  unfolding identify record_session open_session
  session env r camera a =
      let (guest, a') = identify env r a in
      elim guest [
        | none ↦ ((401, none), record_session env r (codes "denied") [] (codes "unknown") a')
        | some g ↦ open_session env r camera g a'
      ]

  abbrev pub stamped : Bool → Text → ℕ × Text → ℕ × Text
  stamped is_playlist sig (status, body) =
      if is_playlist && (status == 200)
      then (status, sign_playlist_uris body sig)
      else (status, body)

  -- A request to the handler that the hub gave: it is a viewer while the library answers.
  unfoldable pub serve : Text → ℕ × Text → StreamHub → (ℕ × Text) × StreamHub
  serve camera answer hub =
      let (ok, hub') = acquire camera hub in
      if ok
      then elim (hub'.cams camera) [
        | none ↦ (answer, hub')
        | some c ↦ (answer, set_cam camera (release_cam hub'.closed c) hub')
      ]
      else ((503, []), hub')

  -- `sig` is the query's `s`; `is_playlist` that the path ends in `.m3u8`; `answer` what the library
  -- answers to the request without `s`.
  unfoldable pub hls : Text → Text → Time → Bool → ℕ × Text → StreamApi → (ℕ × Text) × StreamApi
  unfolding serve
  hls camera sig now is_playlist answer a =
      if verify_stream h a.secret camera sig now
      then (let (known, hub) = handler camera a.hub in
          if known
          then (let (served, hub') = serve camera answer hub in
              (stamped is_playlist sig served, record a { hub = hub' }))
          else ((404, []), record a { hub = hub }))
      else ((403, []), a)
