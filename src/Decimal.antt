-- ===== src/Decimal.antt =====
-- Decimal numbers in text: `%d` of `fmt`, `strconv.FormatInt` and `strconv.ParseInt`, base 10.
use camonitor.Prelude.{
  ℕ, zero, suc, ◌+◌, ◌-◌, ◌*◌, ◌/◌, ◌%◌, ◌≤◌, ◌<◌, ◌≡◌, ◌∙◌, refl, ap, Bool, true, false, ◌&&◌, inl,
  inr, [], ◌∷◌, Option, none, some, arith, ltb, leb, ◌==◌, if◌then◌else◌, Bool-cases, Text, codes,
  is_empty, contains, ℤ, pos, negsuc,
}

-- The digits of `n` before `acc`; `n` is less than the fuel.
print_before : ℕ → ℕ → Text → Text
print_before zero n acc = acc
print_before (suc f) n acc =
    let more = print_before f (n / 10) ((48 + n % 10) ∷ acc) in
    if ltb n 10 then (48 + n) ∷ acc else more

unfoldable pub decimal : ℕ → Text
unfolding print_before
decimal n = print_before (suc n) n []

abbrev pub is_digit : ℕ → Bool
is_digit c = leb 48 c && leb c 57

all_digits : Text → Bool
all_digits [] = true
all_digits (c ∷ s) = is_digit c && all_digits s

value : ℕ → Text → ℕ
value acc [] = acc
value acc (c ∷ s) = value (acc * 10 + (c - 48)) s

-- Digits, at least one, and no more than the bound.
parse_digits : ℕ → Text → Option ℕ
unfolding all_digits value
parse_digits bound s =
    if is_empty s
    then none
    else if all_digits s
    then (if leb (value 0 s) bound then some (value 0 s) else none)
    else none

abbrev negate : ℕ → ℤ
negate zero = pos 0
negate (suc n) = negsuc n

abbrev pub max_int64 : ℕ
max_int64 = 9223372036854775807

abbrev map_int : (ℕ → ℤ) → Option ℕ → Option ℤ
map_int f none = none
map_int f (some n) = some (f n)

-- `strconv.ParseInt(s, 10, 64)`; `none` is its error.
unfoldable pub parse_int : Text → Option ℤ
unfolding parse_digits
parse_int [] = none
parse_int (c ∷ s) =
    if c == b'-'
    then map_int negate (parse_digits (max_int64 + 1) s)
    else if c == b'+'
    then map_int pos (parse_digits max_int64 s)
    else map_int pos (parse_digits max_int64 (c ∷ s))

value-print_before : (f n : ℕ) (acc : Text) → n < f → value 0 (print_before f n acc) ≡ value n acc
unfolding print_before value
value-print_before zero n acc h = absurd (omega arith)
value-print_before (suc f) n acc h = elim (Bool-cases (ltb n 10)) [
  | inl e ↦ rw e (ap (λ k. value k acc) (omega arith))
  | inr e ↦
      let step : n / 10 < f = ground arith in
      let back : n / 10 * 10 + (48 + n % 10 - 48) ≡ n = omega arith in
      rw e (value-print_before f (n / 10) ((48 + n % 10) ∷ acc) step ∙ ap (λ k. value k acc) back)
]

digit-and :
    (k : ℕ) (acc : Text) → k < 10 → all_digits acc ≡ true → all_digits ((48 + k) ∷ acc) ≡ true
unfolding all_digits
digit-and k acc h d = ground arith

all_digits-print_before :
    (f n : ℕ) (acc : Text)
    → n < f
    → all_digits acc ≡ true
    → all_digits (print_before f n acc) ≡ true
unfolding print_before all_digits
all_digits-print_before zero n acc h d = absurd (omega arith)
all_digits-print_before (suc f) n acc h d = elim (Bool-cases (ltb n 10)) [
  | inl e ↦ rw e (ground arith)
  | inr e ↦
      let step : n / 10 < f = ground arith in
      rw e (
        all_digits-print_before f (n / 10) ((48 + n % 10) ∷ acc) step
          (digit-and (n % 10) acc (omega arith) d))
]

print_before-ne_nil : (f n : ℕ) (acc : Text) → n < f → is_empty (print_before f n acc) ≡ false
unfolding print_before
print_before-ne_nil zero n acc h = absurd (omega arith)
print_before-ne_nil (suc f) n acc h = elim (Bool-cases (ltb n 10)) [
  | inl e ↦ rw e
  | inr e ↦
      let step : n / 10 < f = ground arith in
      rw e (print_before-ne_nil f (n / 10) ((48 + n % 10) ∷ acc) step)
]

value-decimal : (n : ℕ) → value 0 (decimal n) ≡ n
unfolding decimal value
value-decimal n = value-print_before (suc n) n [] (omega arith)

-- A number is read back from its digits.
pub decimal-injective : (m n : ℕ) → decimal m ≡ decimal n → m ≡ n
decimal-injective m n h = cc (value-decimal m, value-decimal n)

parse_int-digits :
    (t : Text) (n : ℕ)
    → all_digits t ≡ true
    → is_empty t ≡ false
    → value 0 t ≡ n
    → n ≤ max_int64
    → parse_int t ≡ some (pos n)
unfolding parse_int all_digits
parse_int-digits [] n d e v h = absurd (cc)
parse_int-digits (c ∷ s) n d e v h = ground arith

-- What `FormatInt` writes of a number of 64 bits, `ParseInt` reads.
pub parse_int-decimal : (n : ℕ) → n ≤ max_int64 → parse_int (decimal n) ≡ some (pos n)
parse_int-decimal n h =
    parse_int-digits (decimal n) n
      (unfold decimal in
        all_digits-print_before (suc n) n [] (omega arith) (unfold all_digits in refl))
      (unfold decimal in print_before-ne_nil (suc n) n [] (omega arith)) (value-decimal n) h

lacks_byte : (c : ℕ) (t : Text) → is_digit c ≡ false → all_digits t ≡ true → contains c t ≡ false
unfolding all_digits
lacks_byte c [] h d = refl
lacks_byte c (b ∷ t) h d = ground (arith, lacks_byte c t h)

-- No byte but a digit stands in it.
pub contains-decimal : (c n : ℕ) → is_digit c ≡ false → contains c (decimal n) ≡ false
contains-decimal c n h = lacks_byte c (decimal n) h (
    unfold decimal in
    all_digits-print_before (suc n) n [] (omega arith) (unfold all_digits in refl))

decimal_zero : (decimal 0 ≡ codes "0") × (decimal 1905 ≡ codes "1905")
unfolding decimal
decimal_zero = (refl, refl)

parse_signs :
    (parse_int (codes "-12") ≡ some (negsuc 11))
    × (parse_int (codes "+7") ≡ some (pos 7))
    × (parse_int (codes "") ≡ none)
    × (parse_int (codes "12a") ≡ none)
    × (parse_int (codes "9223372036854775808") ≡ none)
unfolding parse_int
parse_signs = (refl, refl, refl, refl, refl)
