-- ===== src/Stream/Playlist/Blanks.antt =====
-- streamapi.go: blank lines, line ends and escapes, as the stamping of a playlist meets them.
use mathlib.Core.List.{reverse, reverse-cons}
use camonitor.Prelude.{
  ℕ, zero, suc, ◌/◌, ◌%◌, ◌≡◌, ◌⊎◌, ◌∙◌, refl, ap, Bool, true, false, ◌&&◌, ◌||◌, inl, inr, [], ◌∷◌,
  ◌++◌, arith, ◌==◌, if◌then◌else◌, Bool-cases, length, drop, get_or, Text, codes, is_empty,
  is_space, trim_left, trim_space, contains,
}
use camonitor.Stream.Playlist.{escape_byte, query_escape, is_unreserved, upper_hex, trim_returns}

abbrev pub all_space : Text → Bool
all_space [] = true
all_space (c ∷ s) = is_space c && all_space s

pub all_space-append : (s t : Text) → all_space (s ++ t) ≡ (all_space s && all_space t)
all_space-append [] t = refl
all_space-append (c ∷ s) t = ground (arith, all_space-append s t)

all_space-reverse : (s : Text) → all_space (reverse s) ≡ all_space s
all_space-reverse [] = refl
all_space-reverse (c ∷ s) =
    ap all_space (reverse-cons c s)
    ∙ all_space-append (reverse s) (c ∷ [])
    ∙ ground (arith, all_space-reverse s)

trim_left-blank : (s : Text) → is_empty (trim_left s) ≡ all_space s
trim_left-blank [] = refl
trim_left-blank (c ∷ s) = ground (arith, trim_left-blank s)

all_space-trim_left : (s : Text) → all_space (trim_left s) ≡ all_space s
all_space-trim_left [] = refl
all_space-trim_left (c ∷ s) = ground (arith, all_space-trim_left s)

is_empty-append_one : (s : Text) (c : ℕ) → is_empty (s ++ c ∷ []) ≡ false
is_empty-append_one [] c = refl
is_empty-append_one (b ∷ s) c = refl

is_empty-reverse : (s : Text) → is_empty (reverse s) ≡ is_empty s
is_empty-reverse [] = refl
is_empty-reverse (c ∷ s) = ap is_empty (reverse-cons c s) ∙ is_empty-append_one (reverse s) c

-- A text that trims to nothing is one of spaces.
pub trim_space-blank : (s : Text) → is_empty (trim_space s) ≡ all_space s
unfolding trim_space
trim_space-blank s =
    is_empty-reverse (trim_left (reverse (trim_left s)))
    ∙ trim_left-blank (reverse (trim_left s))
    ∙ all_space-reverse (trim_left s)
    ∙ all_space-trim_left s

pub contains-append : (c : ℕ) (s t : Text) → contains c (s ++ t) ≡ (contains c s || contains c t)
contains-append c [] t = refl
contains-append c (b ∷ s) t = ground (arith, contains-append c s t)

pub trim_returns-none : (s : Text) → contains 13 s ≡ false → trim_returns s ≡ s
unfolding trim_returns
trim_returns-none [] h = refl
trim_returns-none (c ∷ s) h = ground (arith, trim_returns-none s)

is_empty-append : (s t : Text) → is_empty t ≡ false → is_empty (s ++ t) ≡ false
is_empty-append [] t h = h
is_empty-append (b ∷ s) t h = refl

pub trim_returns-append :
    (s t : Text) → is_empty (trim_returns t) ≡ false → trim_returns (s ++ t) ≡ s ++ trim_returns t
unfolding trim_returns
trim_returns-append [] t h = refl
trim_returns-append (c ∷ s) t h =
    ground (arith, trim_returns-append s t h, is_empty-append s (trim_returns t) h)

pub trim_returns-append_ends :
    (s t : Text) → trim_returns t ≡ [] → trim_returns (s ++ t) ≡ trim_returns s
unfolding trim_returns
trim_returns-append_ends [] t h = h
trim_returns-append_ends (c ∷ s) t h = ground (arith, trim_returns-append_ends s t h)

pub trim_returns-blank : (s : Text) → is_empty (trim_returns s) ≡ true → all_space s ≡ true
unfolding trim_returns
trim_returns-blank [] h = refl
trim_returns-blank (c ∷ s) h = ground (arith, trim_returns-blank s)

pub trim_returns-rest : (s : Text) → trim_returns (drop (length (trim_returns s)) s) ≡ []
unfolding trim_returns
trim_returns-rest [] = refl
trim_returns-rest (c ∷ s) = elim (Bool-cases ((c == 13) && is_empty (trim_returns s))) [
  | inl e ↦ rw e (rw e refl)
  | inr e ↦ rw e (trim_returns-rest s)
]

pub trim_returns-split : (s : Text) → trim_returns s ++ drop (length (trim_returns s)) s ≡ s
unfolding trim_returns
trim_returns-split [] = refl
trim_returns-split (c ∷ s) = elim (Bool-cases ((c == 13) && is_empty (trim_returns s))) [
  | inl e ↦ rw e refl
  | inr e ↦ rw e (ap (◌∷◌ c) (trim_returns-split s))
]

get_or-lacks :
    (d : ℕ) (xs : Text) (i : ℕ) → contains (suc d) xs ≡ false → (get_or xs i 0 == suc d) ≡ false
get_or-lacks d [] i h = ground arith
get_or-lacks d (x ∷ xs) zero h = ground arith
get_or-lacks d (x ∷ xs) (suc i) h = get_or-lacks d xs i (ground arith)

-- A line end: a line feed or a carriage return.
abbrev pub IsLineEnd : ℕ → Type 0
IsLineEnd d = (d ≡ 10) ⊎ (d ≡ 13)

escaped_lacks :
    (c d hi lo : ℕ)
    → IsLineEnd d
    → (hi == d) ≡ false
    → (lo == d) ≡ false
    → contains d
        (if is_unreserved c then c ∷ [] else if c == 32 then b'+' ∷ [] else b'%' ∷ hi ∷ lo ∷ [])
      ≡ false
escaped_lacks c d hi lo (inl e) h l = ground arith
escaped_lacks c d hi lo (inr e) h l = ground arith

escape_byte-lacks : (c d : ℕ) → IsLineEnd d → contains d (escape_byte c) ≡ false
unfolding escape_byte
escape_byte-lacks c d (inl e) =
    escaped_lacks c d (upper_hex (c / 16)) (upper_hex (c % 16)) (inl e)
      (rw e (get_or-lacks 9 (codes "0123456789ABCDEF") (c / 16) refl))
      (rw e (get_or-lacks 9 (codes "0123456789ABCDEF") (c % 16) refl))
escape_byte-lacks c d (inr e) =
    escaped_lacks c d (upper_hex (c / 16)) (upper_hex (c % 16)) (inr e)
      (rw e (get_or-lacks 12 (codes "0123456789ABCDEF") (c / 16) refl))
      (rw e (get_or-lacks 12 (codes "0123456789ABCDEF") (c % 16) refl))

pub query_escape-lacks : (s : Text) (d : ℕ) → IsLineEnd d → contains d (query_escape s) ≡ false
unfolding query_escape
query_escape-lacks [] d h = refl
query_escape-lacks (c ∷ s) d h =
    contains-append d (escape_byte c) (query_escape s)
    ∙ ground (arith, escape_byte-lacks c d h, query_escape-lacks s d h)
