-- ===== src/Guest/Api.antt =====
-- guestapi.go: the public surface, with the enrolment, the two door buttons and the self-revocation.
--
-- A handler takes the server and the environment's answers, and returns the response beside the
-- server. `opens` records the calls of the door actions, which the program's main part implements.
pub mod Doors
pub mod Effects
mod Examples
use camonitor.Prelude.{
  ℕ, Bool, true, false, not, ◌&&◌, ◌||◌, List, [], ◌∷◌, ◌++◌, Option, none, some, if◌then◌else◌,
  Text, codes, text_eq, is_empty, cut_prefix,
}
use camonitor.Clock.{Time, unix}
use camonitor.Audit.{AuditEvent, AuditStore}
use camonitor.Audit
use camonitor.Guest.Source.{Request, client_source}
use camonitor.Guest.Store.{
  Sha256, Guest, GuestStore, Error, guest_not_found, enroll_invalid, enroll_expired, rand_failed,
  save_failed, Result, ok, err, SaveOutcome, authenticate, revoke, enroll, enroll_demo,
}

pub data Door : Type 0 where
  gate outdoor : Door

abbrev pub door_action : Door → Text
door_action gate = codes "gate"
door_action outdoor = codes "outdoor"

pub record Server : Type 0 where
  pub store : GuestStore
  pub audit : AuditStore
  pub opens : List Door

-- What the environment answers during one request: the clock's readings in the store and in the audit
-- record, the outcomes of the two writes that a handler may make, whether the audit database works,
-- and whether the door action succeeds.
pub record Answers : Type 0 where
  pub now : Time
  pub later : Time
  pub logged_at : Time
  pub seen_saved : SaveOutcome
  pub saved : SaveOutcome
  pub audit_works : Bool
  pub opened : Bool

pub record EnrollReply : Type 0 where
  pub token : Text
  pub label : Text
  pub created : ℕ
  pub demo : Bool

pub record Response : Type 0 where
  pub status : ℕ
  pub body : Option EnrollReply

abbrev pub reply : ℕ → Response
reply status = record { status = status; body = none }

abbrev pub demo_guest_label : Text
demo_guest_label = codes "App Review (demo)"

-- The event of a handler before `record` adds the time and the source.
abbrev pub event : Text → Text → Text → Text → AuditEvent
event action result guest_id guest_label = record {
  time = 0;
  guest_id = guest_id;
  guest_label = guest_label;
  action = action;
  result = result;
  source_ip = [];
  source_device = [];
}

-- `record`: the error of the log is dropped.
unfoldable pub record_event : Answers → Request → AuditEvent → Server → Server
record_event env r e s =
    let (ip, device) = client_source r in
    record s {
      audit =
          (Audit.log env.audit_works
            (record e { time = env.logged_at; source_ip = ip; source_device = device }) s.audit).1;
    }

-- `strings.CutPrefix(…, "Bearer ")`: without the prefix the whole header is the token.
abbrev pub bearer : Request → Text × Bool
bearer r = elim (cut_prefix (codes "Bearer ") r.authorization) [
  | none ↦ (r.authorization, false)
  | some token ↦ (token, true)
]

abbrev denied : Answers → Request → Text → Server → Response × Server
denied env r action s =
    (reply 401, record_event env r (event action (codes "denied") [] (codes "unknown")) s)

module _ (d : Sha256) where
  -- The guest whose token the request bears, and the store after its last visit is noted. The store
  -- is asked even where the prefix is missing.
  unfoldable pub authorize : Answers → Request → Server → Option Guest × Server
  authorize env r s =
      let (token, has_bearer) = bearer r in
      let (guest, store) = authenticate d token env.now env.seen_saved s.store in
      (if has_bearer then guest else none, record s { store = store })

  -- Past the token: demo guests are refused, others run the action.
  unfoldable pub open_door : Answers → Request → Door → Guest → Server → Response × Server
  open_door env r door g s =
      if g.demo
      then (
        reply 403,
        record_event env r (event (door_action door) (codes "denied") g.id g.label) s,
      )
      else let s' = record s { opens = s.opens ++ door ∷ [] } in
        if env.opened
        then (
          reply 204,
          record_event env r (event (door_action door) (codes "success") g.id g.label) s',
        )
        else (
          reply 502,
          record_event env r (event (door_action door) (codes "failed") g.id g.label) s',
        )

  unfoldable pub require_token : Answers → Request → Door → Server → Response × Server
  require_token env r door s =
      let (guest, s') = authorize env r s in
      elim guest [ none ↦ denied env r (door_action door) s' | some g ↦ open_door env r door g s' ]

  forget_guest : Answers → Request → Guest → Server → Response × Server
  forget_guest env r g s =
      let (e, store) = revoke g.id env.saved s.store in
      let s' = record s { store = store } in
      elim e [
        | none ↦ (
          reply 204,
          record_event env r (event (codes "forget") (codes "success") g.id g.label) s',
        )
        | some _ ↦ (
          reply 500,
          record_event env r (event (codes "forget") (codes "failed") g.id g.label) s',
        )
      ]

  unfoldable pub forget : Answers → Request → Server → Response × Server
  unfolding forget_guest
  forget env r s =
      let (guest, s') = authorize env r s in
      elim guest [ none ↦ denied env r (codes "forget") s' | some g ↦ forget_guest env r g s' ]

  -- A demo code is set, and this is it.
  unfoldable pub is_demo_code : Text → Text → Bool
  is_demo_code demo_code code = not (is_empty demo_code) && text_eq code demo_code

  abbrev is_enroll_error : Error → Bool
  is_enroll_error enroll_invalid = true
  is_enroll_error enroll_expired = true
  is_enroll_error _ = false

  enroll_reply : Answers → Request → Result (Text × Guest) → Server → Response × Server
  enroll_reply env r (ok (token, g)) s = (
    record {
      status = 200;
      body =
          some (record { token = token; label = g.label; created = unix g.created; demo = g.demo });
    },
    record_event env r (event (codes "enroll") (codes "success") g.id g.label) s,
  )
  enroll_reply env r (err e) s =
      if is_enroll_error e
      then (reply 400, record_event env r (event (codes "enroll") (codes "denied") [] []) s)
      else (reply 500, s)

  -- `code` is what the body decodes to, or none; `id` and `bytes` are random.
  unfoldable pub enroll_handler :
      Text
      → Answers
      → Request
      → Option Text
      → Option Text
      → Option Text
      → Server
      → Response × Server
  unfolding is_demo_code enroll_reply
  enroll_handler demo_code env r none id bytes s = (reply 400, s)
  enroll_handler demo_code env r (some code) id bytes s =
      let (result, store) =
        if is_demo_code demo_code code
        then enroll_demo d demo_guest_label id bytes env.now env.saved s.store
        else enroll d code bytes env.now env.later env.saved s.store in
      enroll_reply env r result (record s { store = store })
