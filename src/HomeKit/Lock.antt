-- ===== src/HomeKit/Lock.antt =====
-- hklock.go: the lock of a door station, a relay that reports nothing. The tile is inferred.
--
-- Writes come from several controllers at once, and the mutex guards the pending timer only, so a write is
-- modelled in its parts: an unlock that has set the tile and has its timer still to start, a lock that
-- has cancelled the timer and has the tile still to set, and a timer callback that is under way. The
-- door client's answer is an argument. The HomeKit library may set the target at any time, for a controller.
pub mod Relock
mod Examples
use mathlib.Core.List.{Memᴰ}
use camonitor.Prelude.{
  ℕ, ◌+◌, ◌-◌, ◌<◌, ◌≡◌, Bool, true, false, not, List, [], ◌∷◌, Option, none, some, ◌==◌,
  if◌then◌else◌, filter_by,
}

pub data LockState : Type 0 where
  unsecured secured : LockState

pub record HkLock : Type 0 where
  pub current : LockState
  pub target : LockState
  pub cancel_pending : Option ℕ
  pub armed : List ℕ
  pub firing : ℕ
  pub scheduling : ℕ
  pub securing : ℕ
  pub next_timer : ℕ

unfoldable pub new_hk_lock : HkLock
new_hk_lock = record {
  current = secured;
  target = secured;
  cancel_pending = none;
  armed = [];
  firing = 0;
  scheduling = 0;
  securing = 0;
  next_timer = 0;
}

unfoldable pub cancel_locked : HkLock → HkLock
cancel_locked l = elim (l.cancel_pending) [
  | none ↦ l
  | some i ↦ record l { cancel_pending = none; armed = filter_by (λ x. not (x == i)) l.armed }
]

-- `unlock` up to `scheduleRelock`. A failed open is `false`.
unfoldable pub unlock : Bool → HkLock → Bool × HkLock
unlock false l = (false, l)
unlock true l = (true, record l { current = unsecured; scheduling = l.scheduling + 1 })

unfoldable pub schedule_relock : HkLock → HkLock
unfolding cancel_locked
schedule_relock l =
    let c = cancel_locked l in
    record c {
      scheduling = c.scheduling - 1;
      cancel_pending = some c.next_timer;
      armed = c.next_timer ∷ c.armed;
      next_timer = c.next_timer + 1;
    }

-- `secure` up to the end of `cancel`, and the rest of it.
unfoldable pub start_secure : HkLock → HkLock
unfolding cancel_locked
start_secure l = let c = cancel_locked l in record c { securing = c.securing + 1 }

-- `setTarget`: whether the write succeeds, and the lock.
unfoldable pub set_target : Bool → LockState → HkLock → Bool × HkLock
unfolding start_secure
set_target opened secured l = (true, start_secure l)
set_target opened unsecured l = unlock opened l

unfoldable pub finish_secure : HkLock → HkLock
finish_secure l = record l { current = secured; securing = l.securing - 1 }

-- The runtime: a timer that was not cancelled goes off.
unfoldable pub expire : ℕ → HkLock → HkLock
expire i l = record l { armed = filter_by (λ x. not (x == i)) l.armed; firing = l.firing + 1 }

-- The timer's callback sets both states, one after the other.
unfoldable pub relock : HkLock → HkLock
relock l = record l { current = secured; target = secured; firing = l.firing - 1 }

pub data Step : HkLock → HkLock → Type 0 where
  retargets : {l : HkLock} (v : LockState) → Step l (record l { target = v })
  writes : {l : HkLock} (opened : Bool) (v : LockState) → Step l (set_target opened v l).1
  schedules : {l : HkLock} → 0 < l.scheduling → Step l (schedule_relock l)
  finishes : {l : HkLock} → 0 < l.securing → Step l (finish_secure l)
  expires : {l : HkLock} (i : ℕ) → Memᴰ i l.armed → Step l (expire i l)
  relocks : {l : HkLock} → 0 < l.firing → Step l (relock l)

pub data Steps : HkLock → HkLock → Type 0 where
  stay : {l : HkLock} → Steps l l
  more : {l l' l'' : HkLock} → Steps l l' → Step l' l'' → Steps l l''
