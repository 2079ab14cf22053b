-- ===== src/Stream/Hub/Life.antt =====
-- The life of the pulls: who watches is served, who left is forgotten, and a closed hub stays so.

use mathlib.Core.Path.{subst}
use camonitor.Prelude.{
  ◌≡◌, ◌∙◌, refl, sym, ap, Bool, true, false, inl, inr, [], Option, none, some, arith,
  if◌then◌else◌, Bool-cases, Option-cases, Text, text_eq,
}
use camonitor.Stream.Hub.{
  StreamCam, StreamHub, set_cam, new_cam, new_stream_hub, acquire_cam, acquire, close_cam, close,
  Step, acquires, releases, expires, idles, closes, Steps, stay, more,
}
use camonitor.Stream.Hub.Sound.{
  is_pulled, to_list, IsSound, acquire_cam-IsSound, release_cam-IsSound, expire_cam-IsSound,
  idle_cam-IsSound, close_cam-IsSound,
}

-- Each camera of the hub is sound.
abbrev pub AllSound : StreamHub → Type 0
AllSound h = (name : Text) (c : StreamCam) → h.cams name ≡ some c → IsSound h.closed c

set_cam-AllSound :
    (name : Text) (c : StreamCam) (h : StreamHub)
    → IsSound h.closed c
    → AllSound h
    → AllSound (set_cam name c h)
unfolding set_cam
set_cam-AllSound name c h s all k d e = elim (Bool-cases (text_eq name k)) [
  | inl hit ↦ let same : c ≡ d = ground (arith, hit, e) in subst (IsSound h.closed) same s
  | inr miss ↦ all k d (ground (arith, miss, e))
]

-- The answer to a request for a camera that there is.
acquired-AllSound :
    (name : Text) (c : StreamCam) (h : StreamHub) (b : Bool) (answer : Bool × StreamHub)
    → h.closed ≡ b
    → answer ≡ (if b then (false, h) else (true, set_cam name (acquire_cam c) h))
    → h.cams name ≡ some c
    → AllSound h
    → AllSound answer.1
acquired-AllSound name c h true answer o a e all =
    subst (λ (x : Bool × StreamHub). AllSound x.1) (sym a) all
acquired-AllSound name c h false answer o a e all =
    subst (λ (x : Bool × StreamHub). AllSound x.1) (sym a)
      (set_cam-AllSound name (acquire_cam c) h (acquire_cam-IsSound h.closed c o (all name c e))
        all)

acquire-AllSound : (name : Text) (h : StreamHub) → AllSound h → AllSound (acquire name h).1
unfolding acquire
acquire-AllSound name h all = elim (Option-cases (h.cams name)) [
  | inl e ↦ rw (e, acquire) all
  | inr (c, e) ↦
      acquired-AllSound name c h h.closed (acquire name h) refl (rw (e, acquire) refl) e all
]

close-AllSound : (h : StreamHub) → AllSound h → AllSound (close h)
unfolding close
close-AllSound h all k d e = elim (Option-cases (h.cams k)) [
  | inl f ↦ absurd (ground (arith, f, e))
  | inr (c, f) ↦
      let same : close_cam c ≡ d = ground (arith, f, e) in
      subst (IsSound true) same (close_cam-IsSound h.closed c (all k c f))
]

Step-AllSound : {h h' : StreamHub} → Step h h' → AllSound h → AllSound h'
Step-AllSound (acquires {h} name) all = acquire-AllSound name h all
Step-AllSound (releases {h} name c e r) all =
    set_cam-AllSound name _ h (release_cam-IsSound h.closed c r (all name c e)) all
Step-AllSound (expires {h} name c i e m) all =
    set_cam-AllSound name _ h (expire_cam-IsSound h.closed c i m (all name c e)) all
Step-AllSound (idles {h} name c e w) all =
    set_cam-AllSound name _ h (idle_cam-IsSound h.closed c (all name c e)) all
Step-AllSound (closes {h}) all = close-AllSound h all

Steps-AllSound : {h h' : StreamHub} → Steps h h' → AllSound h → AllSound h'
Steps-AllSound stay all = all
Steps-AllSound (more ss s) all = Step-AllSound s (Steps-AllSound ss all)

new_cam-IsSound : {url : Text} → IsSound false (new_cam url)
new_cam-IsSound = record {
  counted = refl;
  one_pull = refl;
  served = λ o v. absurd (omega arith);
  stopping = λ o v p. cc;
  timers = inl refl;
  shut = λ o. cc;
}

new_stream_hub-AllSound : (sources : Text → Option Text) → AllSound (new_stream_hub sources)
unfolding new_stream_hub
new_stream_hub-AllSound sources k d e = elim (Option-cases (sources k)) [
  | inl f ↦ absurd (ground (arith, f, e))
  | inr (url, f) ↦
      let same : new_cam url ≡ d = ground (arith, f, e) in
      subst (IsSound false) same new_cam-IsSound
]

-- Whatever happens to a hub, each of its cameras stays sound: its viewers are counted right, it has
-- one pull at most and no pull of an earlier run goes on; while the hub is open it is pulled whenever
-- it has a viewer, and when it is pulled without one then the timer that ends the pull is running or
-- its callback is about to come; once the hub is closed it is not pulled and no timer runs.
pub hub-IsSound :
    (sources : Text → Option Text) {h : StreamHub} (name : Text) (c : StreamCam)
    → Steps (new_stream_hub sources) h
    → h.cams name ≡ some c
    → IsSound h.closed c
hub-IsSound sources name c steps e = Steps-AllSound steps (new_stream_hub-AllSound sources) name c e

acquire-shut : (name : Text) (h : StreamHub) → h.closed ≡ true → acquire name h ≡ (false, h)
unfolding acquire
acquire-shut name h k = elim (Option-cases (h.cams name)) [
  | inl f ↦ rw (f, acquire) refl
  | inr (c, f) ↦ rw (f, acquire, k) refl
]

closed-Step : {h h' : StreamHub} → Step h h' → h.closed ≡ true → h'.closed ≡ true
unfolding set_cam close
closed-Step (acquires {h} name) e =
    ap (λ (x : Bool × StreamHub). x.1.closed) (acquire-shut name h e) ∙ e
closed-Step (releases name c e r) k = k
closed-Step (expires name c i e m) k = k
closed-Step (idles name c e w) k = k
closed-Step closes k = refl

closed-Steps : {h h' : StreamHub} → Steps h h' → h.closed ≡ true → h'.closed ≡ true
closed-Steps stay k = k
closed-Steps (more ss s) k = closed-Step s (closed-Steps ss k)

append-Steps : {h h' h'' : StreamHub} → Steps h h' → Steps h' h'' → Steps h h''
append-Steps ss stay = ss
append-Steps ss (more ts t) = more (append-Steps ss ts) t

-- `Close` is for good: after any steps before it and after it, releases and late timers among them,
-- no camera is pulled, no pull goes on, and every request for a camera is refused and changes nothing.
pub closed_for_good :
    (sources : Text → Option Text) {h h' : StreamHub} (name : Text)
    → Steps (new_stream_hub sources) h
    → Steps (close h) h'
    → (acquire name h' ≡ (false, h'))
      × ((c : StreamCam) → h'.cams name ≡ some c → (c.run ≡ none) × (c.live ≡ []))
unfolding close
closed_for_good sources {h} {h'} name before after =
    let k : h'.closed ≡ true = closed-Steps after refl in
    (
      acquire-shut name h' k,
      λ c e.
          let s : IsSound h'.closed c =
            hub-IsSound sources name c (append-Steps (more before closes) after) e in
          let (off, _) = s.shut k in
          let r : c.run ≡ none = run_none c off in (r, s.one_pull ∙ ap to_list r),
    )
  where
    run_none : (c : StreamCam) → is_pulled c ≡ false → c.run ≡ none
    run_none c off = elim (Option-cases c.run) [ inl e ↦ e | inr (r, e) ↦ ground arith ]
