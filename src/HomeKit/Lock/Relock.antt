-- ===== src/HomeKit/Lock/Relock.antt =====
-- hklock.go: the way back to Secured.
use camonitor.Prelude.{◌+◌, ◌<◌, ◌≡◌, ◌≢◌, ◌⊎◌, refl, true, false, inl, inr, [], arith}
use camonitor.HomeKit.Lock.{
  unsecured, secured, HkLock, new_hk_lock, set_target, unlock, schedule_relock, start_secure,
  finish_secure, expire, relock, Step, retargets, writes, schedules, finishes, expires, relocks,
  Steps, stay, more,
}

-- Something is on its way that sets the tile to Secured.
abbrev pub IsComing : HkLock → Type 0
IsComing l = (l.armed ≢ []) ⊎ (0 < l.firing + l.scheduling + l.securing)

abbrev pub WillRelock : HkLock → Type 0
WillRelock l = (l.current ≡ secured) ⊎ IsComing l

Step-WillRelock : {l l' : HkLock} → Step l l' → WillRelock l → WillRelock l'
unfolding set_target unlock schedule_relock start_secure finish_secure expire relock
Step-WillRelock (retargets v) (inl e) = inl e
Step-WillRelock (retargets v) (inr w) = inr w
Step-WillRelock (writes false unsecured) (inl e) = inl e
Step-WillRelock (writes false unsecured) (inr w) = inr w
Step-WillRelock (writes true unsecured) w = inr (inr (omega arith))
Step-WillRelock (schedules s) w = inr (inl (λ e. cc))
Step-WillRelock (writes opened secured) w = inr (inr (omega arith))
Step-WillRelock (finishes s) w = inl refl
Step-WillRelock (expires i m) w = inr (inr (omega arith))
Step-WillRelock (relocks f) w = inl refl

Steps-WillRelock : {l l' : HkLock} → Steps l l' → WillRelock l → WillRelock l'
Steps-WillRelock stay w = w
Steps-WillRelock (more ss s) w = Step-WillRelock s (Steps-WillRelock ss w)

-- The tile never stays Unsecured: in whatever order the parts of the writes and the timer's callbacks
-- come, a tile that is not Secured has a timer running, or a callback or a write under way, that will
-- set it to Secured.
pub lock-WillRelock : {l : HkLock} → Steps new_hk_lock l → WillRelock l
unfolding new_hk_lock
lock-WillRelock steps = Steps-WillRelock steps (inl refl)
