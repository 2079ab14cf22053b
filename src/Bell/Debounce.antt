-- ===== src/Bell/Debounce.antt =====
-- bell.go: how often a ring is let through.

use camonitor.Prelude.{
  ◌+◌, ◌≤◌, ◌≡◌, ◌⊎◌, ◌∙◌, refl, ap, false, inl, inr, List, [], ◌∷◌, Option, none, some, arith, ltb,
  Bool-cases, Option-cases, Text, text_eq, text_eq_iff, lookup, put, lookup-put, lookup-put_self,
}
use camonitor.Clock.{Time, since}
use camonitor.Config.{StreamConfig}
use camonitor.Bell.{BellBus, bell_debounce, last_of, fire}

-- The entries of a history that keeps the last `history_cap`.
-- The rings that come in, each with the stream and the time, one after the other.
unfoldable pub fire_all : List (Text × Time) → BellBus → BellBus
fire_all [] b = b
fire_all ((id, t) ∷ rings) b = fire_all rings (fire id t b).1

-- A ring of the stream was let through at `t` or later.
FiredSince : Text → Time → BellBus → Type 0
FiredSince id t b = (last : Time) × (lookup id b.last_fire ≡ some last) × (t ≤ last)

fired_now :
    (id : Text) (t : Time) (b : BellBus) (s : StreamConfig)
    → (fire id t b).0 ≡ some s
    → FiredSince id t (fire id t b).1
unfolding fire FiredSince
fired_now id t b s e = (t, ground (arith, e, lookup-put_self id t b.last_fire), omega arith)

fired_apart :
    (id : Text) (t t' : Time) (b : BellBus) (s : StreamConfig)
    → FiredSince id t b
    → (fire id t' b).0 ≡ some s
    → t + bell_debounce ≤ t'
unfolding fire FiredSince
fired_apart id t t' b s (last, l, le) e = elim (Option-cases (lookup id b.streams)) [
  | inl f ↦ absurd (ground (arith, f, e))
  | inr (c, f) ↦ ground (arith, f, l, e)
]

-- A ring leaves the times as they were, or sets that of its stream to one that is late enough.
fire_effect :
    (id : Text) (now : Time) (b : BellBus)
    → ((fire id now b).1.last_fire ≡ b.last_fire)
      ⊎ (((fire id now b).1.last_fire ≡ put id now b.last_fire)
          × (ltb (since now (last_of id b.last_fire)) bell_debounce ≡ false))
unfolding fire
fire_effect id now b = elim (Option-cases (lookup id b.streams)) [
  | inl f ↦ inl (rw (f, fire) refl)
  | inr (c, f) ↦ elim (Bool-cases (ltb (since now (last_of id b.last_fire)) bell_debounce)) [
    | inl e ↦ inl (rw (f, e, fire) refl)
    | inr e ↦ inr (rw (f, e, fire) refl, e)
  ]
]

fire_keeps :
    (id : Text) (t : Time) (other : Text) (now : Time) (b : BellBus)
    → FiredSince id t b
    → FiredSince id t (fire other now b).1
unfolding FiredSince
fire_keeps id t other now b (last, l, le) = elim (fire_effect other now b) [
  | inl e ↦ (last, ap (lookup id) e ∙ l, le)
  | inr (e, late) ↦ elim (Bool-cases (text_eq other id)) [
    | inl hit ↦
        let same : other ≡ id = (text_eq_iff other id).0 hit in
        let read : last_of other b.last_fire ≡ last =
          ap (λ k. last_of k b.last_fire) same
          ∙ ap (λ (o : Option Time). elim o [ none ↦ 0 | some t ↦ t ]) l in
        let f : ltb (since now last) bell_debounce ≡ false = rw read at late in
        (
          now,
          ap (lookup id) e ∙ ground (arith, hit, lookup-put other id now b.last_fire),
          ground arith,
        )
    | inr miss ↦
        (last, ap (lookup id) e ∙ ground (arith, miss, l, lookup-put other id now b.last_fire), le)
  ]
]

fire_all_keeps :
    (id : Text) (t : Time) (rings : List (Text × Time)) (b : BellBus)
    → FiredSince id t b
    → FiredSince id t (fire_all rings b)
unfolding fire_all
fire_all_keeps id t [] b h = h
fire_all_keeps id t ((other, now) ∷ rings) b h =
    fire_all_keeps id t rings (fire other now b).1 (fire_keeps id t other now b h)

-- Two rings of one stream that are let through are 15 seconds apart or more, whatever rings, of this
-- and of other streams, come between them.
pub rings_apart :
    (id : Text) (t t' : Time) (rings : List (Text × Time)) (b : BellBus) (s s' : StreamConfig)
    → (fire id t b).0 ≡ some s
    → (fire id t' (fire_all rings (fire id t b).1)).0 ≡ some s'
    → t + bell_debounce ≤ t'
rings_apart id t t' rings b s s' e e' =
    fired_apart id t t' (fire_all rings (fire id t b).1) s'
      (fire_all_keeps id t rings (fire id t b).1 (fired_now id t b s e)) e'
