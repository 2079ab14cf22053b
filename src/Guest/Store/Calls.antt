-- ===== src/Guest/Store/Calls.antt =====
-- The store's history: its methods as calls, in any order and with any outcome of the writes, and
-- restarts of the server, which read the file again.
use camonitor.Prelude.{Bool, true, false, List, [], ◌∷◌, Option, none, some, Text}
use camonitor.Guest.Store.{
  Time, Sha256, Error, Result, ok, err, GuestStore, SaveOutcome, create, revoke, enroll,
  enroll_demo, authenticate, open_guest_store,
}

pub data Call : Type 0 where
  creates : Text → Option Text → Option Text → Time → SaveOutcome → Call
  revokes : Text → SaveOutcome → Call
  enrolls : Text → Option Text → Time → Time → SaveOutcome → Call
  enrolls_demo : Text → Option Text → Option Text → Time → SaveOutcome → Call
  authenticates : Text → Time → SaveOutcome → Call
  restarts : Call

unfoldable pub step : Sha256 → GuestStore → Call → GuestStore
unfolding open_guest_store
step d s (creates label id code_bytes now out) = (create d label id code_bytes now out s).1
step d s (revokes id out) = (revoke id out s).1
step d s (enrolls code token_bytes now later out) = (enroll d code token_bytes now later out s).1
step d s (enrolls_demo label id token_bytes now out) =
    (enroll_demo d label id token_bytes now out s).1
step d s (authenticates token now out) = (authenticate d token now out s).1
step d s restarts = open_guest_store s.file

abbrev pub is_ok {ℓ} : {A : Type ℓ} → Result A → Bool
is_ok (ok a) = true
is_ok (err e) = false

abbrev pub is_none : Option Error → Bool
is_none none = true
is_none (some e) = false

-- The method reported that its change was made and saved. `Authenticate` never says so.
unfoldable pub reports_saved : Sha256 → GuestStore → Call → Bool
reports_saved d s (creates label id code_bytes now out) =
    is_ok (create d label id code_bytes now out s).0
reports_saved d s (revokes id out) = is_none (revoke id out s).0
reports_saved d s (enrolls code token_bytes now later out) =
    is_ok (enroll d code token_bytes now later out s).0
reports_saved d s (enrolls_demo label id token_bytes now out) =
    is_ok (enroll_demo d label id token_bytes now out s).0
reports_saved d s (authenticates token now out) = false
reports_saved d s restarts = false

unfoldable pub run : Sha256 → GuestStore → List Call → GuestStore
unfolding step
run d s [] = s
run d s (c ∷ cs) = run d (step d s c) cs
