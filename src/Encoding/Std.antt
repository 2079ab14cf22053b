-- ===== src/Encoding/Std.antt =====
-- `base64.StdEncoding`: padded base64 with `+` and `/`.
--
-- As in Go, line ends are skipped, padding has to be complete and last, and the bits that fill up the
-- last character are not looked at.
use camonitor.Prelude.{
  ℕ, zero, suc, ◌+◌, ◌*◌, ◌/◌, ◌%◌, ◌<◌, ◌≡◌, ◌∙◌, refl, ap, Bool, true, false, not, ◌&&◌, ◌||◌, [],
  ◌∷◌, Option, none, some, arith, ◌==◌, if◌then◌else◌, get_or, index_of, filter_by, All, Text,
  codes, is_empty,
}
use camonitor.Encoding.Decode.{IsByte}

abbrev std_alphabet : Text
std_alphabet = codes "ABCDEFGHIJKLMNOPQRSTUVWXYZabcdefghijklmnopqrstuvwxyz0123456789+/"

std_char : ℕ → ℕ
std_char d = get_or std_alphabet d 0

std_digit : ℕ → Option ℕ
std_digit c = index_of c std_alphabet

-- `base64.StdEncoding.EncodeToString`
unfoldable pub base64_std : Text → Text
unfolding std_char
base64_std [] = []
base64_std (x ∷ []) = std_char (x / 4) ∷ std_char ((x % 4) * 16) ∷ b'=' ∷ b'=' ∷ []
base64_std (x ∷ y ∷ []) =
    std_char (x / 4) ∷ std_char ((x % 4) * 16 + y / 16) ∷ std_char ((y % 16) * 4) ∷ b'=' ∷ []
base64_std (x ∷ y ∷ z ∷ s) =
    std_char (x / 4)
    ∷ std_char ((x % 4) * 16 + y / 16)
    ∷ std_char ((y % 16) * 4 + z / 64)
    ∷ std_char (z % 64)
    ∷ base64_std s

-- The bytes of four characters, before those of the rest.
quantum_one : Option ℕ → Option ℕ → Option Text
quantum_one (some a) (some b) = some ((a * 4 + b / 16) ∷ [])
quantum_one a b = none

quantum_two : Option ℕ → Option ℕ → Option ℕ → Option Text
quantum_two (some a) (some b) (some c) = some ((a * 4 + b / 16) ∷ ((b % 16) * 16 + c / 4) ∷ [])
quantum_two a b c = none

quantum_three : Option ℕ → Option ℕ → Option ℕ → Option ℕ → Option Text → Option Text
quantum_three (some a) (some b) (some c) (some d) (some s) =
    some ((a * 4 + b / 16) ∷ ((b % 16) * 16 + c / 4) ∷ ((c % 4) * 64 + d) ∷ s)
quantum_three a b c d s = none

decode_quanta : Text → Option Text
unfolding std_digit quantum_one quantum_two quantum_three
decode_quanta [] = some []
decode_quanta (a ∷ []) = none
decode_quanta (a ∷ b ∷ []) = none
decode_quanta (a ∷ b ∷ c ∷ []) = none
decode_quanta (a ∷ b ∷ c ∷ d ∷ s) =
    let rest = decode_quanta s in
    if d == b'='
    then (if not (is_empty s)
        then none
        else if c == b'='
        then quantum_one (std_digit a) (std_digit b)
        else quantum_two (std_digit a) (std_digit b) (std_digit c))
    else quantum_three (std_digit a) (std_digit b) (std_digit c) (std_digit d) rest

abbrev is_line_end : ℕ → Bool
is_line_end c = (c == 10) || (c == 13)

-- `base64.StdEncoding.DecodeString`
unfoldable pub decode_base64_std : Text → Option Text
unfolding decode_quanta
decode_base64_std s = decode_quanta (filter_by (λ c. not (is_line_end c)) s)

-- A character is read back, and is neither padding nor a line end.
is_std_char : ℕ → Bool
is_std_char d =
    elim (std_digit (std_char d)) [ none ↦ false | some e ↦ e == d ]
    && (not (is_line_end (std_char d)) && not (std_char d == b'='))

chars_below : ℕ → Bool
chars_below zero = true
chars_below (suc n) = is_std_char n && chars_below n

chars_below_64 : chars_below 64 ≡ true
unfolding chars_below is_std_char std_char std_digit
chars_below_64 = refl

char_below : (n d : ℕ) → d < n → chars_below n ≡ true → is_std_char d ≡ true
unfolding chars_below
char_below zero d h e = absurd (omega arith)
char_below (suc n) d h e = ground (arith, char_below n d, ap is_std_char)

std_digit-std_char : (d : ℕ) → d < 64 → std_digit (std_char d) ≡ some d
unfolding is_std_char
std_digit-std_char d h = ground (arith, char_below 64 d h chars_below_64)

std_char-kept : (d : ℕ) → d < 64 → not (is_line_end (std_char d)) ≡ true
unfolding is_std_char
std_char-kept d h = ground (arith, char_below 64 d h chars_below_64)

std_char-padding : (d : ℕ) → d < 64 → (std_char d == b'=') ≡ false
unfolding is_std_char
std_char-padding d h = ground (arith, char_below 64 d h chars_below_64)

base64_std-kept :
    (s : Text) → All IsByte s → filter_by (λ c. not (is_line_end c)) (base64_std s) ≡ base64_std s
unfolding base64_std filter_by
base64_std-kept [] h = refl
base64_std-kept (x ∷ []) h =
    rw (std_char-kept (x / 4) (omega arith), std_char-kept ((x % 4) * 16) (omega arith)) refl
base64_std-kept (x ∷ y ∷ []) h =
    rw
      (
        std_char-kept (x / 4) (omega arith),
        std_char-kept ((x % 4) * 16 + y / 16) (omega arith),
        std_char-kept ((y % 16) * 4) (omega arith),
      )
      refl
base64_std-kept (x ∷ y ∷ z ∷ s) h =
    rw
      (
        std_char-kept (x / 4) (omega arith),
        std_char-kept ((x % 4) * 16 + y / 16) (omega arith),
        std_char-kept ((y % 16) * 4 + z / 64) (omega arith),
        std_char-kept (z % 64) (omega arith),
        base64_std-kept s h.1.1.1,
      )
      refl

decode_quanta-base64_std : (s : Text) → All IsByte s → decode_quanta (base64_std s) ≡ some s
unfolding base64_std decode_quanta
decode_quanta-base64_std [] h = refl
decode_quanta-base64_std (x ∷ []) h =
    let e : x / 4 * 4 + (x % 4) * 16 / 16 ≡ x = omega arith in
    rw (std_digit-std_char (x / 4) (omega arith), std_digit-std_char ((x % 4) * 16) (omega arith))
      (ap (λ v. some (v ∷ [])) e)
decode_quanta-base64_std (x ∷ y ∷ []) h =
    let e : x / 4 * 4 + ((x % 4) * 16 + y / 16) / 16 ≡ x = omega arith in
    let f : ((x % 4) * 16 + y / 16) % 16 * 16 + (y % 16) * 4 / 4 ≡ y = omega arith in
    rw
      (
        std_char-padding ((y % 16) * 4) (omega arith),
        std_digit-std_char (x / 4) (omega arith),
        std_digit-std_char ((x % 4) * 16 + y / 16) (omega arith),
        std_digit-std_char ((y % 16) * 4) (omega arith),
      )
      (rw (e, f) refl)
decode_quanta-base64_std (x ∷ y ∷ z ∷ s) h =
    let e : x / 4 * 4 + ((x % 4) * 16 + y / 16) / 16 ≡ x = omega arith in
    let f : ((x % 4) * 16 + y / 16) % 16 * 16 + ((y % 16) * 4 + z / 64) / 4 ≡ y = omega arith in
    let g : ((y % 16) * 4 + z / 64) % 4 * 64 + z % 64 ≡ z = omega arith in
    rw
      (
        std_char-padding (z % 64) (omega arith),
        std_digit-std_char (x / 4) (omega arith),
        std_digit-std_char ((x % 4) * 16 + y / 16) (omega arith),
        std_digit-std_char ((y % 16) * 4 + z / 64) (omega arith),
        std_digit-std_char (z % 64) (omega arith),
        decode_quanta-base64_std s h.1.1.1,
      )
      (rw (e, f, g) refl)

-- Bytes that were encoded are decoded to themselves.
pub decode-base64_std : (s : Text) → All IsByte s → decode_base64_std (base64_std s) ≡ some s
unfolding decode_base64_std
decode-base64_std s h = ap decode_quanta (base64_std-kept s h) ∙ decode_quanta-base64_std s h
