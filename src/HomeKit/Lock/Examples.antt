-- ===== src/HomeKit/Lock/Examples.antt =====
-- Tests of the lock, and its theorem at a concrete run.

use camonitor.Prelude.{◌≡◌, refl, true, false, [], ◌∷◌, arith, filter_by}
use camonitor.HomeKit.Lock.{
  unsecured, secured, HkLock, new_hk_lock, cancel_locked, set_target, unlock, schedule_relock,
  start_secure, finish_secure, expire, relock, writes, schedules, Steps, stay, more,
}
use camonitor.HomeKit.Lock.Relock.{WillRelock, lock-WillRelock}

lock_runs : Unit {0}
unfolding filter_by new_hk_lock cancel_locked set_target unlock schedule_relock start_secure
    finish_secure expire relock
lock_runs = tt

-- Two unlocks: the timer of the first is stopped.
twice : HkLock
unfolding lock_runs
twice = schedule_relock (unlock true (schedule_relock (unlock true new_hk_lock).1)).1

one_timer :
    (twice.armed ≡ 1 ∷ [])
    × (twice.current ≡ unsecured)
    × ((relock (expire 1 twice)).current ≡ secured)
unfolding lock_runs twice
one_timer = (refl, refl, refl)

stays_shut : (unlock false new_hk_lock).1.current ≡ secured
unfolding lock_runs
stays_shut = refl

to_twice : Steps new_hk_lock twice
unfolding lock_runs twice
to_twice =
    more
      (more (more (more stay (writes true unsecured)) (schedules (omega arith)))
        (writes true unsecured))
      (schedules (omega arith))

lock-WillRelock_example : WillRelock twice
lock-WillRelock_example = lock-WillRelock to_twice
