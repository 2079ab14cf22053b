-- ===== src/Prelude/Sort.antt =====
-- Sorting by a Boolean order: the meaning of an `ORDER BY`.
use mathlib.Core.Path.{◌≡◌, refl, sym, ap, ◌∙◌}
use mathlib.Core.Logic.{inl, inr}
use mathlib.Core.Bool.{Bool, true, false}
use mathlib.Core.List.{List, [], ◌∷◌, Perm, Memᴰ}
use mathlib.Core.List.Perm
use Prim.Native.Nat.{ℕ, zero, suc, ◌≤◌}
use native.Mathlib.Omega.{arith}
use camonitor.Prelude.Tests.{if◌then◌else◌, if_both, Bool-cases}
use camonitor.Prelude.Lists.{length, take, drop, All, All-map, All-take, All-drop}

module _ {A : Type 0} (before : A → A → Bool) where
  unfoldable pub insert : A → List A → List A
  insert a [] = a ∷ []
  insert a (b ∷ bs) = if before a b then a ∷ b ∷ bs else b ∷ insert a bs

  unfoldable pub sort : List A → List A
  unfolding insert
  sort [] = []
  sort (a ∷ xs) = insert a (sort xs)

  -- Each entry stands before all that follow it.
  abbrev pub IsSorted : List A → Type 0
  IsSorted [] = Unit
  IsSorted (a ∷ xs) = All (λ b. before a b ≡ true) xs × IsSorted xs

  insert-perm : (a : A) (bs : List A) → Perm (insert a bs) (a ∷ bs)
  unfolding insert
  insert-perm a [] = Perm.refl (a ∷ [])
  insert-perm a (b ∷ bs) = elim (Bool-cases (before a b)) [
    | inl e ↦ rw e (Perm.refl (a ∷ b ∷ bs))
    | inr e ↦ rw e (Perm.trans (Perm.cons b (insert-perm a bs)) (Perm.swap a b bs))
  ]

  pub sort-perm : (xs : List A) → Perm (sort xs) xs
  unfolding sort
  sort-perm [] = Perm.refl []
  sort-perm (a ∷ xs) = Perm.trans (insert-perm a (sort xs)) (Perm.cons a (sort-perm xs))

  All-insert : (P : A → Type 0) (a : A) (bs : List A) → P a → All P bs → All P (insert a bs)
  unfolding insert
  All-insert P a [] p h = (p, tt)
  All-insert P a (b ∷ bs) p h = elim (Bool-cases (before a b)) [
    | inl e ↦ rw e (p, h)
    | inr e ↦ rw e (h.0, All-insert P a bs p h.1)
  ]

  pub All-sort : (P : A → Type 0) (xs : List A) → All P xs → All P (sort xs)
  unfolding sort
  All-sort P [] h = tt
  All-sort P (a ∷ xs) h = All-insert P a (sort xs) h.0 (All-sort P xs h.1)

  pub length-sort : (xs : List A) → length (sort xs) ≡ length xs
  unfolding sort
  length-sort [] = refl
  length-sort (a ∷ xs) = length-insert a (sort xs) ∙ ap suc (length-sort xs)
    where
      length-insert : (a : A) (bs : List A) → length (insert a bs) ≡ suc (length bs)
      length-insert a [] = refl
      length-insert a (b ∷ bs) =
          if_both (λ (l : List A). length l ≡ suc (suc (length bs))) (before a b) _ _ refl
            (ap suc (length-insert a bs))

  pub IsSorted-take : (n : ℕ) (xs : List A) → IsSorted xs → IsSorted (take n xs)
  IsSorted-take zero xs h = tt
  IsSorted-take (suc n) [] h = tt
  IsSorted-take (suc n) (x ∷ xs) h =
      (All-take (λ b. before x b ≡ true) n xs h.0, IsSorted-take n xs h.1)

  -- What is taken stands before what is dropped.
  pub IsSorted-take-drop :
      (n : ℕ) (xs : List A)
      → IsSorted xs
      → All (λ a. All (λ b. before a b ≡ true) (drop n xs)) (take n xs)
  IsSorted-take-drop zero xs h = tt
  IsSorted-take-drop (suc n) [] h = tt
  IsSorted-take-drop (suc n) (x ∷ xs) h =
      (All-drop (λ b. before x b ≡ true) n xs h.0, IsSorted-take-drop n xs h.1)

  module _ (total : (a b : A) → before a b ≡ false → before b a ≡ true)
      (trans : (a b c : A) → before a b ≡ true → before b c ≡ true → before a c ≡ true) where
    insert-IsSorted : (a : A) (bs : List A) → IsSorted bs → IsSorted (insert a bs)
    unfolding insert
    insert-IsSorted a [] h = (tt, tt)
    insert-IsSorted a (b ∷ bs) h = elim (Bool-cases (before a b)) [
      | inl e ↦ rw e (
        (
          e,
          All-map (λ c. before b c ≡ true) (λ c. before a c ≡ true) bs (λ c f. trans a b c e f) h.0,
        ),
        h,
      )
      | inr e ↦
          rw e
            (All-insert (λ c. before b c ≡ true) a bs (total a b e) h.0, insert-IsSorted a bs h.1)
    ]

    pub sort-IsSorted : (xs : List A) → IsSorted (sort xs)
    unfolding sort
    sort-IsSorted [] = tt
    sort-IsSorted (a ∷ xs) = insert-IsSorted a (sort xs) (sort-IsSorted xs)

-- A filter by a Boolean test.
unfoldable pub filter_by {ℓ} : {A : Type ℓ} → (A → Bool) → List A → List A
filter_by test [] = []
filter_by test (a ∷ xs) = let rest = filter_by test xs in if test a then a ∷ rest else rest

module _ {ℓ} {A : Type ℓ} (test : A → Bool) where
  head_or_tail :
      {a x : A} {xs ys : List A}
      → test x ≡ true
      → (Memᴰ a ys → Memᴰ a xs × (test a ≡ true))
      → Memᴰ a (x ∷ ys)
      → Memᴰ a (x ∷ xs) × (test a ≡ true)
  head_or_tail e f (Memᴰ.head p) = (Memᴰ.head p, ap test p ∙ e)
  head_or_tail e f (Memᴰ.tail m) = let (n, t) = f m in (Memᴰ.tail n, t)

  -- Each member of the filtered list is a member of the list and passes the test.
  pub mem-filter_by_to :
      (xs : List A) (a : A) → Memᴰ a (filter_by test xs) → Memᴰ a xs × (test a ≡ true)
  unfolding filter_by
  mem-filter_by_to [] a m = elim m [ ]
  mem-filter_by_to (x ∷ xs) a m = elim (Bool-cases (test x)) [
    | inl e ↦ head_or_tail e (mem-filter_by_to xs a) (rw e at m)
    | inr e ↦ let (n, t) = mem-filter_by_to xs a (rw e at m) in (Memᴰ.tail n, t)
  ]

  -- And the other way round.
  pub mem-filter_by_of :
      (xs : List A) (a : A) → Memᴰ a xs → test a ≡ true → Memᴰ a (filter_by test xs)
  unfolding filter_by
  mem-filter_by_of [] a m t = elim m [ ]
  mem-filter_by_of (x ∷ xs) a (Memᴰ.head p) t = rw (ap test (sym p) ∙ t) (Memᴰ.head p)
  mem-filter_by_of (x ∷ xs) a (Memᴰ.tail m) t =
      if_both (Memᴰ a) (test x) _ _ (Memᴰ.tail (mem-filter_by_of xs a m t))
        (mem-filter_by_of xs a m t)

  pub length-filter_by-le : (xs : List A) → length (filter_by test xs) ≤ length xs
  unfolding filter_by
  length-filter_by-le [] = omega arith
  length-filter_by-le (x ∷ xs) = ground (arith, length-filter_by-le xs)
