-- ===== src/Door.antt =====
-- door.go: the client that opens a door station's relay, by an HTTP request with digest
-- authentication.
--
-- The station is an argument: what it answers to a request with the given Authorization header, the
-- empty one for none. The target's path and query, which `net/url` parses, is an argument as well.
pub mod Digest
pub mod Requests
mod Examples
use camonitor.Prelude.{
  ℕ, Bool, true, false, not, ◌||◌, List, [], ◌∷◌, ◌++◌, Option, none, some, ◌==◌, if◌then◌else◌,
  Text, codes, is_empty, Map, lookup, put,
}
use camonitor.Config.{StreamConfig, door_open_url}
use Digest.{Md5, parse_digest_challenge, build_digest_response}

-- An answer of the station: its status and its WWW-Authenticate header.
pub record Answer : Type 0 where
  pub status : ℕ
  pub www_authenticate : Text

-- Why there is no answer.
pub data SendError : Type 0 where
  deadline_exceeded unreachable : SendError

pub data Sent : Type 0 where
  answered : Answer → Sent
  failed : SendError → Sent

pub data OpenError : Type 0 where
  unknown_stream bad_challenge bad_url : OpenError
  unexpected_status auth_failed : ℕ → OpenError
  send_error : SendError → OpenError

-- The door was opened, or not and why.
pub data Opened : Type 0 where
  opened : Opened
  not_opened : OpenError → Opened

-- A request: the target and its Authorization header.
pub record DoorRequest : Type 0 where
  pub target : Text
  pub authorization : Text

abbrev pub Station : Type 0
Station = DoorRequest → Sent

abbrev pub authed : Sent → Opened
authed (failed e) = not_opened (send_error e)
authed (answered a) = if a.status == 200 then opened else not_opened (auth_failed a.status)

module _ (d : Md5) (station : Station) (request_uri : Text → Option Text) where
  -- The second request, and what it comes to, beside the requests that were sent.
  unfoldable pub answer_challenge : Text → StreamConfig → Answer → Opened × List DoorRequest
  answer_challenge cnonce s a = elim (parse_digest_challenge a.www_authenticate) [
    | none ↦ (not_opened bad_challenge, [])
    | some c ↦ elim (request_uri (door_open_url s)) [
      | none ↦ (not_opened bad_url, [])
      | some uri ↦
          let r : DoorRequest = record {
            target = door_open_url s;
            authorization = build_digest_response d (codes "GET") uri s.user s.pass cnonce c;
          } in
          (authed (station r), r ∷ [])
    ]
  ]

  abbrev pub first_request : StreamConfig → DoorRequest
  first_request s = record { target = door_open_url s; authorization = [] }

  unfoldable pub with_first : Text → StreamConfig → Sent → Opened × List DoorRequest
  unfolding answer_challenge
  with_first cnonce s (failed e) = (not_opened (send_error e), [])
  with_first cnonce s (answered a) =
      if a.status == 200
      then (opened, [])
      else if a.status == 401
      then answer_challenge cnonce s a
      else (not_opened (unexpected_status a.status), [])

  -- `Open`: what it returns, and the requests that it sent.
  unfoldable pub client_open : Map StreamConfig → Text → Text → Opened × List DoorRequest
  unfolding with_first
  client_open streams stream_id cnonce = elim (lookup stream_id streams) [
    | none ↦ (not_opened unknown_stream, [])
    | some s ↦
        let (result, sent) = with_first cnonce s (station (first_request s)) in
        (result, first_request s ∷ sent)
  ]

  -- The status of `HandleOpen`, for a POST.
  abbrev pub status_of : Opened → ℕ
  status_of opened = 204
  status_of (not_opened unknown_stream) = 404
  status_of (not_opened (send_error deadline_exceeded)) = 504
  status_of (not_opened _) = 502

  -- `HandleOpen`: the status, and the requests that were sent. `is_post` is the test of `requirePost`.
  unfoldable pub handle_open : Map StreamConfig → Bool → Text → Text → ℕ × List DoorRequest
  unfolding client_open
  handle_open streams is_post id cnonce =
      if not is_post
      then (405, [])
      else if is_empty id
      then (400, [])
      else let (result, sent) = client_open streams id cnonce in (status_of result, sent)

-- `NewDoorClient`: the streams by their ids, a later one in place of an earlier.
unfoldable pub new_door_client : List StreamConfig → Map StreamConfig → Map StreamConfig
new_door_client [] m = m
new_door_client (s ∷ rest) m = new_door_client rest (put s.id s m)
