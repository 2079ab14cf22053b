-- ===== src/Guest/Api/Examples.antt =====
-- Tests of the guest API, and its theorems at concrete inputs.
use mathlib.Core.List.{Memᴰ}
use camonitor.Prelude.{
  ◌≡◌, ◌≢◌, refl, true, false, List, [], ◌∷◌, ◌++◌, none, some, Text, codes, text_eq, cut_prefix,
}
use camonitor.Encoding.{hex}
use camonitor.Audit.{Table}
use camonitor.Guest.Source.{Request}
use camonitor.Guest.Store.{
  GuestRecord, saved, rename_failed, find, update_first, save, authenticate, revoke, hash_secret,
  hash_equal, token_matches, with_token, created_record,
}
use camonitor.Guest.Store.Calls.{Call, authenticates, restarts, step, run}
use camonitor.Guest.Examples.{toy}
use camonitor.Guest.Api.{
  Server, Answers, gate, require_token, forget, enroll_handler, authorize, open_door, record_event,
}
use camonitor.Guest.Api.Doors.{door_opens_for_guest}
use camonitor.Guest.Api.Effects.{outcome, audit_changes_nothing}

abbrev request : Text → Request
request authorization = record {
  authorization = authorization;
  forwarded_for = [];
  remote_addr = codes "10.0.0.7:5123";
  user_agent = codes "Phone";
}

api_runs : Unit {0}
unfolding text_eq hex find update_first save token_matches with_token created_record hash_secret
    hash_equal cut_prefix authenticate authorize open_door record_event require_token revoke forget
    step run
api_runs = tt

abbrev member : Text → Text → GuestRecord
member id token = with_token toy token 3 (created_record toy id (codes "Ann") (codes "CODE") 1)

abbrev table : Table
table = record { rows = []; next_id = 1 }

abbrev server : Server
server = record {
  store = record {
    guests = member (codes "1") (codes "a") ∷ member (codes "2") (codes "b") ∷ [];
    file = none;
  };
  audit = some table;
  opens = [];
}

abbrev answers : Answers
answers = record {
  now = 5;
  later = 5;
  logged_at = 6;
  seen_saved = saved;
  saved = saved;
  audit_works = true;
  opened = true;
}

opens_gate :
    (require_token toy answers (request (codes "Bearer b")) gate server).1.opens ≡ gate ∷ []
unfolding api_runs
opens_gate = refl

refuses_without_prefix :
    (require_token toy answers (request (codes "b")) gate server).0.status ≡ 401
unfolding api_runs
refuses_without_prefix = refl

one_opening :
    (require_token toy answers (request (codes "Bearer b")) gate server).1.opens ≢ server.opens
unfolding api_runs
one_opening e = cc

door_opens_for_guest_example :
    (token : Text) × (codes "Bearer b" ≡ codes "Bearer " ++ token)
    × (rec : GuestRecord) × Memᴰ rec server.store.guests
    × (rec.token_hash ≡ hash_secret toy token)
    × (rec.revoked ≡ false)
    × (rec.demo ≡ false)
    × ((require_token toy answers (request (codes "Bearer b")) gate server).1.opens
        ≡ server.opens ++ gate ∷ [])
door_opens_for_guest_example =
    door_opens_for_guest toy answers (request (codes "Bearer b")) gate server one_opening

audit_changes_nothing_example :
    let broken = record answers { audit_works = false } in
    let s = record server { audit = none } in
    let r = request (codes "Bearer b") in
    (outcome (require_token toy broken r gate s)
      ≡ outcome (require_token toy answers r gate server))
    × (outcome (forget toy broken r s) ≡ outcome (forget toy answers r server))
    × (outcome (enroll_handler toy [] broken r none none none s)
        ≡ outcome (enroll_handler toy [] answers r none none none server))
audit_changes_nothing_example =
    audit_changes_nothing toy false none [] answers (request (codes "Bearer b")) gate none none none
      server

abbrev after_forgetting : List Call
after_forgetting = restarts ∷ authenticates (codes "b") 8 rename_failed ∷ []

lets_the_other_in :
    (authenticate toy
      (codes "a")
      9
      saved
      (run toy (forget toy answers (request (codes "Bearer b")) server).1.store after_forgetting)).0
    ≡ some (record (member (codes "1") (codes "a")).guest { last_seen = 9 })
unfolding api_runs
lets_the_other_in = refl
