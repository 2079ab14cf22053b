-- ===== src/Prelude/Strings.antt =====
-- A Go string is its bytes.
use Prim.Native.Nat.{ℕ, suc, ◌+◌}
use Prim.Native.Char.{code}
use Prim.Native.String.{String}
use mathlib.Core.Path.{◌≡◌, refl}
use mathlib.Core.Logic.{◌↔◌, ◌≢◌}
use mathlib.Core.Bool.{Bool, true, false, ◌&&◌, ◌||◌}
use mathlib.Core.List.{List, [], ◌∷◌, ◌++◌, map, reverse}
use mathlib.Core.Option
use mathlib.Core.Option.{Option, none, some}
use native.Mathlib.Omega.{arith}
use camonitor.Prelude.Tests.{ltb, ◌==◌, if◌then◌else◌}

abbrev pub Text : Type 0
Text = List ℕ

-- The bytes of an ASCII literal.
abbrev pub codes : String → Text
codes String.[] = []
codes (String.◌∷◌ c s) = code c ∷ codes s

unfoldable pub text_eq : Text → Text → Bool
text_eq [] [] = true
text_eq (a ∷ s) (b ∷ t) = (a == b) && text_eq s t
text_eq _ _ = false

pub text_eq-to : (s t : Text) → text_eq s t ≡ true → s ≡ t
unfolding text_eq
text_eq-to [] [] h = refl
text_eq-to (a ∷ s) (b ∷ t) h = ground (arith, text_eq-to s t)
text_eq-to [] (b ∷ t) h = cc
text_eq-to (a ∷ s) [] h = cc

pub text_eq_refl : (s : Text) → text_eq s s ≡ true
unfolding text_eq
text_eq_refl [] = refl
text_eq_refl (a ∷ s) = ground (arith, text_eq_refl s)

pub text_eq_of : (s t : Text) → s ≡ t → text_eq s t ≡ true
text_eq_of s t h = rw h (text_eq_refl t)

pub text_eq_iff : (s t : Text) → (text_eq s t ≡ true) ↔ (s ≡ t)
text_eq_iff s t = (text_eq-to s t, text_eq_of s t)

pub ne_of_text_eq : (s t : Text) → text_eq s t ≡ false → s ≢ t
ne_of_text_eq s t h e = cc (text_eq_of s t e)

abbrev pub is_empty : Text → Bool
is_empty [] = true
is_empty (c ∷ s) = false

-- `strings.CutPrefix`: what follows the prefix, or none.
unfoldable pub cut_prefix : Text → Text → Option Text
cut_prefix [] s = some s
cut_prefix (p ∷ ps) [] = none
cut_prefix (p ∷ ps) (c ∷ s) = let rest = cut_prefix ps s in if p == c then rest else none

pub cut_prefix-append : (p s : Text) → cut_prefix p (p ++ s) ≡ some s
unfolding cut_prefix
cut_prefix-append [] s = refl
cut_prefix-append (c ∷ p) s = ground (arith, cut_prefix-append p s)

pub append-cut_prefix : (p s : Text) (r : Text) → cut_prefix p s ≡ some r → s ≡ p ++ r
unfolding cut_prefix
append-cut_prefix [] s r h = ground arith
append-cut_prefix (c ∷ p) [] r h = cc
append-cut_prefix (c ∷ p) (d ∷ s) r h = ground (arith, append-cut_prefix p s r)

abbrev pub contains : ℕ → Text → Bool
contains c [] = false
contains c (b ∷ s) = (b == c) || contains c s

-- `strings.IndexByte`
abbrev pub index_of : ℕ → Text → Option ℕ
index_of c [] = none
index_of c (b ∷ s) = let rest = Option.map suc (index_of c s) in if b == c then some 0 else rest

-- `strings.LastIndexByte`
abbrev pub last_index_of : ℕ → Text → Option ℕ
last_index_of c [] = none
last_index_of c (b ∷ s) = elim (last_index_of c s) [
  | some i ↦ some (suc i)
  | none ↦ if b == c then some 0 else none
]

-- `strings.Cut` at one byte: before, after, and whether it was there.
unfoldable pub cut : ℕ → Text → Text × Text × Bool
cut c [] = ([], [], false)
cut c (b ∷ s) =
    let (before, after, found) = cut c s in
    if b == c then ([], s, true) else (b ∷ before, after, found)

pub cut-append : (c : ℕ) (p q : Text) → contains c p ≡ false → cut c (p ++ (c ∷ q)) ≡ (p, q, true)
unfolding cut
cut-append c [] q h = ground arith
cut-append c (b ∷ p) q h = ground (arith, cut-append c p q)

pub append-cut : (c : ℕ) (s : Text) → (cut c s).2 ≡ true → s ≡ (cut c s).0 ++ (c ∷ (cut c s).1)
unfolding cut
append-cut c [] h = cc
append-cut c (b ∷ s) h = ground (arith, append-cut c s)

-- The ASCII part of `unicode.IsSpace`.
abbrev pub is_space : ℕ → Bool
is_space c = (c == 32) || ((ltb 8 c) && (ltb c 14))

abbrev pub trim_left : Text → Text
trim_left [] = []
trim_left (c ∷ s) = let rest = trim_left s in if is_space c then rest else c ∷ s

-- `strings.TrimSpace`
unfoldable pub trim_space : Text → Text
trim_space s = reverse (trim_left (reverse (trim_left s)))

-- `strings.ToLower` on ASCII.
abbrev pub lower : ℕ → ℕ
lower c = if (ltb 64 c) && (ltb c 91) then c + 32 else c

unfoldable pub to_lower : Text → Text
to_lower = map lower
