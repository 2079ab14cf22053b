-- ===== src/Guest/Store/Find.antt =====
-- `find` and the write to the record that it finds.
use camonitor.Prelude.{
  ◌≡◌, refl, sym, inl, inr, if_both, ◌∙◌, Bool-cases, All-map, Bool, true, false, List, [], ◌∷◌,
  ◌++◌, none, some, arith, All,
}
use mathlib.Core.List.{Memᴰ}
use camonitor.Guest.Store.{GuestRecord, find, update_first}

-- At most one record matches.
abbrev pub Once : (GuestRecord → Bool) → List GuestRecord → Type 0
Once match [] = Unit
Once match (r ∷ rs) = (match r ≡ true → All (λ q. match q ≡ false) rs) × Once match rs

module _ (match : GuestRecord → Bool) where
  -- What `find` returns is a record of the list that matches.
  pub find-some :
      (gs : List GuestRecord) (r : GuestRecord)
      → find match gs ≡ some r
      → Memᴰ r gs × (match r ≡ true)
  unfolding find
  find-some [] r h = cc
  find-some (q ∷ qs) r h = elim (Bool-cases (match q)) [
    | inl hit ↦ let e : q ≡ r = ground arith in (Memᴰ.head (sym e), rw (← e) hit)
    | inr miss ↦ let (m, t) = find-some qs r (ground arith) in (Memᴰ.tail m, t)
  ]

  pub find-none : (gs : List GuestRecord) → All (λ q. match q ≡ false) gs → find match gs ≡ none
  unfolding find
  find-none [] h = refl
  find-none (q ∷ qs) h = ground (arith, find-none qs h.1)

  pub find-append :
      (gs : List GuestRecord) (r : GuestRecord)
      → All (λ q. match q ≡ false) gs
      → match r ≡ true
      → find match (gs ++ r ∷ []) ≡ some r
  unfolding find
  find-append [] r h m = ground arith
  find-append (q ∷ qs) r h m = ground (arith, find-append qs r h.1 m)

  module _ (f : GuestRecord → GuestRecord) where
    pub update_first-append :
        (gs : List GuestRecord) (r : GuestRecord)
        → All (λ q. match q ≡ false) gs
        → match r ≡ true
        → update_first match f (gs ++ r ∷ []) ≡ gs ++ f r ∷ []
    unfolding update_first
    update_first-append [] r h m = ground arith
    update_first-append (q ∷ qs) r h m = ground (arith, update_first-append qs r h.1 m)

    -- Where one record matches, the write leaves only records that had not matched and the new one.
    pub All-update_first-Once :
        (Q : GuestRecord → Type 0) (gs : List GuestRecord)
        → Once match gs
        → ((r : GuestRecord) → match r ≡ true → Q (f r))
        → ((r : GuestRecord) → match r ≡ false → Q r)
        → All Q (update_first match f gs)
    unfolding update_first
    All-update_first-Once Q [] o hit miss = tt
    All-update_first-Once Q (r ∷ rs) o hit miss = elim (Bool-cases (match r)) [
      | inl e ↦ rw e (hit r e, All-map (λ q. match q ≡ false) Q rs miss (o.0 e))
      | inr e ↦ rw e (miss r e, All-update_first-Once Q rs o.1 hit miss)
    ]

-- A write that does not change what is looked for.
module _ (look : GuestRecord → Bool) (match : GuestRecord → Bool) (f : GuestRecord → GuestRecord)
    (keep : (r : GuestRecord) → look (f r) ≡ look r) where
  All-update_first-keep :
      (b : Bool) (gs : List GuestRecord)
      → All (λ q. look q ≡ b) gs
      → All (λ q. look q ≡ b) (update_first match f gs)
  unfolding update_first
  All-update_first-keep b [] h = tt
  All-update_first-keep b (r ∷ rs) h =
      if_both (All (λ q. look q ≡ b)) (match r) _ _ (keep r ∙ h.0, h.1)
        (h.0, All-update_first-keep b rs h.1)

  pub Once-update_first :
      (gs : List GuestRecord) → Once look gs → Once look (update_first match f gs)
  unfolding update_first
  Once-update_first [] h = tt
  Once-update_first (r ∷ rs) h =
      if_both (Once look) (match r) _ _ ((λ e. h.0 (sym (keep r) ∙ e)), h.1)
        ((λ e. All-update_first-keep false rs (h.0 e)), Once-update_first rs h.1)
