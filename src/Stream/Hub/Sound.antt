-- ===== src/Stream/Hub/Sound.antt =====
-- streamhub.go: each operation on a camera keeps the camera's record sound.
use mathlib.Core.List.{Memᴰ}
use camonitor.Prelude.{
  ℕ, ◌-◌, ◌<◌, ◌≡◌, ◌≢◌, ◌⊎◌, ◌∙◌, refl, ap, Bool, true, false, ◌||◌, inl, inr, List, [], ◌∷◌,
  Option, none, some, arith, ltb, ◌==◌, Bool-cases, Option-cases, filter_by,
}
use camonitor.Stream.Hub.{
  StreamCam, stop, start_locked, acquire_cam, release_cam, expire_cam, idle_cam, close_cam,
}

abbrev pub is_pulled : StreamCam → Bool
is_pulled c = elim c.run [ none ↦ false | some r ↦ true ]

abbrev pub to_list : Option ℕ → List ℕ
to_list none = []
to_list (some r) = r ∷ []

-- A camera of a hub, closed or not.
--  * `counted`: the viewers are the release functions that are out;
--  * `one_pull`: the pull that goes on is the camera's run, so there is one at most and none leaks;
--  * `served`: an open hub pulls a camera that has a viewer;
--  * `stopping`: an open hub that pulls a camera without viewers has its timer running, or the timer's
--    callback about to come;
--  * `timers`: a timer runs only without viewers, one at most, and it is the one that can be stopped;
--  * `shut`: a closed hub pulls nothing and has no timer running.
pub record IsSound (closed : Bool) (c : StreamCam) : Type 0 where
  pub counted : c.viewers ≡ c.releases
  pub one_pull : c.live ≡ to_list c.run
  pub served : closed ≡ false → 0 < c.viewers → is_pulled c ≡ true
  pub stopping :
      closed ≡ false → c.viewers ≡ 0 → is_pulled c ≡ true → (c.armed ≢ []) ⊎ (0 < c.waiting)
  pub timers :
      (c.armed ≡ []) ⊎ ((c.viewers ≡ 0) × (i : ℕ) × (c.idle_timer ≡ some i) × (c.armed ≡ i ∷ []))
  pub shut : closed ≡ true → (is_pulled c ≡ false) × (c.armed ≡ [])

stop-nil : (t : Option ℕ) → stop t [] ≡ []
unfolding stop filter_by
stop-nil none = refl
stop-nil (some i) = refl

stop_self : (i : ℕ) → stop (some i) (i ∷ []) ≡ []
unfolding stop filter_by
stop_self i = ground arith

stop-idle_timer :
    (c : StreamCam)
    → (c.armed ≡ []) ⊎ ((c.viewers ≡ 0) × (i : ℕ) × (c.idle_timer ≡ some i) × (c.armed ≡ i ∷ []))
    → stop c.idle_timer c.armed ≡ []
stop-idle_timer c (inl e) = rw e (stop-nil c.idle_timer)
stop-idle_timer c (inr (v, i, t, e)) = rw (t, e) (stop_self i)

stop-to_list : (r : Option ℕ) → stop r (to_list r) ≡ []
stop-to_list none = stop-nil none
stop-to_list (some i) = stop_self i

pub acquire_cam-IsSound :
    (closed : Bool) (c : StreamCam)
    → closed ≡ false
    → IsSound closed c
    → IsSound closed (acquire_cam c)
unfolding acquire_cam start_locked
acquire_cam-IsSound closed c o s = elim (Option-cases c.run) [
  | inl e ↦ rw e (record {
    counted = omega (arith, s.counted);
    one_pull = ap (◌∷◌ c.next_id) (s.one_pull ∙ ap to_list e);
    served = λ _ v. refl;
    stopping = λ _ v p. absurd (omega arith);
    timers = inl (stop-idle_timer c s.timers);
    shut = λ k. cc;
  })
  | inr (r, e) ↦ rw e (record {
    counted = omega (arith, s.counted);
    one_pull = s.one_pull;
    served = λ _ v. ap (λ (x : Option ℕ). elim x [ none ↦ false | some r ↦ true ]) e;
    stopping = λ _ v p. absurd (omega arith);
    timers = inl (stop-idle_timer c s.timers);
    shut = λ k. cc;
  })
]

-- With a viewer no timer runs.
none_armed : (closed : Bool) (c : StreamCam) → IsSound closed c → 0 < c.viewers → c.armed ≡ []
none_armed closed c s v = elim (s.timers) [
  | inl e ↦ e
  | inr (z, i, t, e) ↦ absurd (omega (arith, z))
]

pub release_cam-IsSound :
    (closed : Bool) (c : StreamCam)
    → 0 < c.releases
    → IsSound closed c
    → IsSound closed (release_cam closed c)
unfolding release_cam
release_cam-IsSound closed c r s =
    let v : 0 < c.viewers = omega (arith, s.counted) in
    let free : c.armed ≡ [] = none_armed closed c s v in
    elim (Bool-cases (ltb 0 (c.viewers - 1) || closed)) [
      | inl e ↦ rw e (record {
        counted = omega (arith, s.counted);
        one_pull = s.one_pull;
        served = λ o w. s.served o v;
        stopping = λ o w p. absurd (ground arith);
        timers = inl free;
        shut = s.shut;
      })
      | inr e ↦ rw e (record {
        counted = omega (arith, s.counted);
        one_pull = s.one_pull;
        served = λ o w. absurd (ground arith);
        stopping = λ o w p. inl (λ f. cc);
        timers = inr (ground arith, c.next_id, refl, ap (◌∷◌ c.next_id) free);
        shut = λ o. absurd (ground arith);
      })
    ]

mem_one : {i j : ℕ} → Memᴰ i (j ∷ []) → i ≡ j
mem_one (Memᴰ.head p) = p
mem_one (Memᴰ.tail m) = elim m [ ]

stop-one : (i : ℕ) (xs : List ℕ) (j : ℕ) → Memᴰ i xs → xs ≡ j ∷ [] → stop (some i) xs ≡ []
stop-one i xs j m e = let p : i ≡ j = mem_one (rw e at m) in rw (e, p) (stop_self j)

pub expire_cam-IsSound :
    (closed : Bool) (c : StreamCam) (i : ℕ)
    → Memᴰ i c.armed
    → IsSound closed c
    → IsSound closed (expire_cam i c)
unfolding expire_cam
expire_cam-IsSound closed c i m s =
    let free : stop (some i) c.armed ≡ [] = elim (s.timers) [
      | inl e ↦ ap (stop (some i)) e ∙ stop-nil (some i)
      | inr (z, j, t, e) ↦ stop-one i c.armed j m e
    ] in
    record {
      counted = s.counted;
      one_pull = s.one_pull;
      served = s.served;
      stopping = λ o v p. inr (omega arith);
      timers = inl free;
      shut = λ o. ((s.shut o).0, free);
    }

live-stop_run : (closed : Bool) (c : StreamCam) → IsSound closed c → stop c.run c.live ≡ []
live-stop_run closed c s = ap (stop c.run) s.one_pull ∙ stop-to_list c.run

pub idle_cam-IsSound :
    (closed : Bool) (c : StreamCam) → IsSound closed c → IsSound closed (idle_cam c)
unfolding idle_cam
idle_cam-IsSound closed c s = elim (Bool-cases (c.viewers == 0)) [
  | inl e ↦ rw e (record {
    counted = s.counted;
    one_pull = live-stop_run closed c s;
    served = λ o v. absurd (ground arith);
    stopping = λ o v p. cc;
    timers = s.timers;
    shut = λ o. (refl, (s.shut o).1);
  })
  | inr e ↦ rw e (record {
    counted = s.counted;
    one_pull = s.one_pull;
    served = s.served;
    stopping = λ o v p. absurd (ground arith);
    timers = s.timers;
    shut = s.shut;
  })
]

pub close_cam-IsSound :
    (closed : Bool) (c : StreamCam) → IsSound closed c → IsSound true (close_cam c)
unfolding close_cam
close_cam-IsSound closed c s = record {
  counted = s.counted;
  one_pull = live-stop_run closed c s;
  served = λ o v. cc;
  stopping = λ o v p. cc;
  timers = inl (stop-idle_timer c s.timers);
  shut = λ o. (refl, stop-idle_timer c s.timers);
}
