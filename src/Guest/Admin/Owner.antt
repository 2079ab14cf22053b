-- ===== src/Guest/Admin/Owner.antt =====
-- guestadmin.go: what the owner's requests come to at the store.
use camonitor.Prelude.{◌≡◌, ◌≢◌, refl, List, Option, none, some, arith, All, Text}
use camonitor.Clock.{Time}
use camonitor.Guest.Store.{
  Sha256, Guest, Error, guest_not_found, enroll_invalid, enroll_expired, rand_failed, save_failed,
  SaveOutcome, has_id, revoke, authenticate,
}
use camonitor.Guest.Store.Calls.{Call, run}
use camonitor.Guest.Store.Find.{Once}
use camonitor.Guest.Store.Access.{IsFresh, revoke_lasts}
use camonitor.Guest.Admin.{GuestAdmin, revoke_status, revoke_handler}

revoke_status_done : (e : Option Error) → revoke_status e ≡ 204 → e ≡ none
revoke_status_done none h = refl
revoke_status_done (some guest_not_found) h = absurd (omega arith)
revoke_status_done (some enroll_invalid) h = absurd (omega arith)
revoke_status_done (some enroll_expired) h = absurd (omega arith)
revoke_status_done (some rand_failed) h = absurd (omega arith)
revoke_status_done (some save_failed) h = absurd (omega arith)

-- When the owner's revocation of a guest is answered 204, the guest is out for good: where one record at
-- most has the id and no later record is given it, no token is let in under that id again, after any
-- history of calls with failed writes and restarts.
pub owner_revokes :
    (d : Sha256) (id : Text) (out : SaveOutcome) (a : GuestAdmin) (cs : List Call) (token : Text)
    (now : Time) (out' : SaveOutcome) (g : Guest)
    → Once (has_id id) a.store.guests
    → (revoke_handler id out a).0 ≡ 204
    → All (IsFresh d id) cs
    → (authenticate d token now out' (run d (revoke_handler id out a).1.store cs)).0 ≡ some g
    → g.id ≢ id
unfolding revoke_handler
owner_revokes d id out a cs token now out' g once done fresh again =
    revoke_lasts d id out a.store cs token now out' g once
      (revoke_status_done (revoke id out a.store).0 done) fresh again
