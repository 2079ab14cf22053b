-- ===== src/Encoding/Decode.antt =====
-- `base64.RawURLEncoding.DecodeString`.
--
-- As in Go, line ends are skipped, and the bits that fill up the last character are not looked at.
use camonitor.Prelude.{
  ℕ, zero, suc, ◌+◌, ◌*◌, ◌/◌, ◌%◌, ◌<◌, ◌≡◌, ◌∙◌, refl, ap, Bool, true, false, not, ◌&&◌, ◌||◌,
  List, [], ◌∷◌, map, Option, none, some, arith, ◌==◌, get_or, index_of, filter_by, All, Text,
}
use camonitor.Encoding.{base64_raw_url, base64_url_alphabet, bits, bits_of, group, encode}

abbrev is_line_end : ℕ → Bool
is_line_end c = (c == 10) || (c == 13)

digit_char : ℕ → ℕ
digit_char d = get_or base64_url_alphabet d 0

char_digit : ℕ → Option ℕ
char_digit c = index_of c base64_url_alphabet

digits_of : Text → Option (List ℕ)
digits_of [] = some []
digits_of (c ∷ s) = elim (char_digit c) [
  | none ↦ none
  | some d ↦ elim (digits_of s) [ none ↦ none | some ds ↦ some (d ∷ ds) ]
]

-- Four digits are three bytes; two or three at the end are one or two, and one alone is an error.
bytes_of : List ℕ → Option Text
bytes_of [] = some []
bytes_of (a ∷ []) = none
bytes_of (a ∷ b ∷ []) = some ((a * 4 + b / 16) ∷ [])
bytes_of (a ∷ b ∷ c ∷ []) = some ((a * 4 + b / 16) ∷ ((b % 16) * 16 + c / 4) ∷ [])
bytes_of (a ∷ b ∷ c ∷ d ∷ ds) = elim (bytes_of ds) [
  | none ↦ none
  | some rest ↦ some ((a * 4 + b / 16) ∷ ((b % 16) * 16 + c / 4) ∷ ((c % 4) * 64 + d) ∷ rest)
]

unfoldable pub decode_base64_raw_url : Text → Option Text
unfolding digits_of bytes_of char_digit
decode_base64_raw_url s = elim (digits_of (filter_by (λ c. not (is_line_end c)) s)) [
  | none ↦ none
  | some ds ↦ bytes_of ds
]

-- The character of a digit is read as that digit, and is no line end.
is_digit_char : ℕ → Bool
is_digit_char d =
    elim (char_digit (digit_char d)) [ none ↦ false | some e ↦ e == d ]
    && not (is_line_end (digit_char d))

all_below : ℕ → Bool
all_below zero = true
all_below (suc n) = is_digit_char n && all_below n

all_below_64 : all_below 64 ≡ true
unfolding all_below is_digit_char digit_char char_digit
all_below_64 = refl

digit_below : (n d : ℕ) → d < n → all_below n ≡ true → is_digit_char d ≡ true
unfolding all_below
digit_below zero d h e = absurd (omega arith)
digit_below (suc n) d h e = ground (arith, digit_below n d, ap is_digit_char)

char_digit-digit_char : (d : ℕ) → d < 64 → char_digit (digit_char d) ≡ some d
unfolding is_digit_char
char_digit-digit_char d h = ground (arith, digit_below 64 d h all_below_64)

keep_digit : (d : ℕ) → d < 64 → not (is_line_end (digit_char d)) ≡ true
unfolding is_digit_char
keep_digit d h = ground (arith, digit_below 64 d h all_below_64)

keep_digits :
    (ds : List ℕ)
    → All (λ d. d < 64) ds
    → filter_by (λ c. not (is_line_end c)) (map digit_char ds) ≡ map digit_char ds
unfolding filter_by
keep_digits [] h = refl
keep_digits (d ∷ ds) h = rw (keep_digit d h.0, keep_digits ds h.1) refl

digits_of-map : (ds : List ℕ) → All (λ d. d < 64) ds → digits_of (map digit_char ds) ≡ some ds
unfolding digits_of
digits_of-map [] h = refl
digits_of-map (d ∷ ds) h = ground (arith, char_digit-digit_char d h.0, digits_of-map ds h.1)

abbrev pub IsByte : ℕ → Type 0
IsByte b = b < 256

group-IsDigit : (bs : Text) → All (λ d. d < 64) (group 6 (bits bs) 0 0)
unfolding group bits bits_of
group-IsDigit [] = tt
group-IsDigit (x ∷ []) = (omega arith, (omega arith, tt))
group-IsDigit (x ∷ y ∷ []) = (omega arith, (omega arith, (omega arith, tt)))
group-IsDigit (x ∷ y ∷ z ∷ bs) =
    (omega arith, (omega arith, (omega arith, (omega arith, group-IsDigit bs))))

bytes_of_two : (a b : ℕ) {x : ℕ} → a * 4 + b / 16 ≡ x → bytes_of (a ∷ b ∷ []) ≡ some (x ∷ [])
unfolding bytes_of
bytes_of_two a b e = ap (λ v. some (v ∷ [])) e

bytes_of_three :
    (a b c : ℕ) {x y : ℕ}
    → a * 4 + b / 16 ≡ x
    → (b % 16) * 16 + c / 4 ≡ y
    → bytes_of (a ∷ b ∷ c ∷ []) ≡ some (x ∷ y ∷ [])
unfolding bytes_of
bytes_of_three a b c e f = rw (e, f) refl

bytes_of_four :
    (a b c d : ℕ) (ds : List ℕ) {x y z : ℕ} {rest : Text}
    → a * 4 + b / 16 ≡ x
    → (b % 16) * 16 + c / 4 ≡ y
    → (c % 4) * 64 + d ≡ z
    → bytes_of ds ≡ some rest
    → bytes_of (a ∷ b ∷ c ∷ d ∷ ds) ≡ some (x ∷ y ∷ z ∷ rest)
unfolding bytes_of
bytes_of_four a b c d ds e f g h = rw (h, e, f, g) refl

bytes_of-group : (bs : Text) → All IsByte bs → bytes_of (group 6 (bits bs) 0 0) ≡ some bs
unfolding group bits bits_of
bytes_of-group [] h = unfold bytes_of in refl
bytes_of-group (x ∷ []) h = bytes_of_two _ _ (omega arith)
bytes_of-group (x ∷ y ∷ []) h = bytes_of_three _ _ _ (omega arith) (omega arith)
bytes_of-group (x ∷ y ∷ z ∷ bs) h =
    bytes_of_four _ _ _ _ (group 6 (bits bs) 0 0) (omega arith) (omega arith) (omega arith)
      (bytes_of-group bs h.1.1.1)

decode_kept :
    (s : Text) (ds : List ℕ)
    → filter_by (λ c. not (is_line_end c)) s ≡ s
    → digits_of s ≡ some ds
    → decode_base64_raw_url s ≡ bytes_of ds
unfolding decode_base64_raw_url
decode_kept s ds e f =
    let g : digits_of (filter_by (λ c. not (is_line_end c)) s) ≡ some ds = ap digits_of e ∙ f in
    rw (decode_base64_raw_url, g) refl

decode-map :
    (ds : List ℕ) → All (λ d. d < 64) ds → decode_base64_raw_url (map digit_char ds) ≡ bytes_of ds
decode-map ds h = decode_kept (map digit_char ds) ds (keep_digits ds h) (digits_of-map ds h)

base64_raw_url_lem : (bs : Text) → base64_raw_url bs ≡ map digit_char (group 6 (bits bs) 0 0)
unfolding base64_raw_url encode digit_char
base64_raw_url_lem bs = refl

-- Bytes that were encoded are decoded to themselves.
pub decode-base64_raw_url :
    (bs : Text) → All IsByte bs → decode_base64_raw_url (base64_raw_url bs) ≡ some bs
decode-base64_raw_url bs h =
    ap decode_base64_raw_url (base64_raw_url_lem bs)
    ∙ decode-map (group 6 (bits bs) 0 0) (group-IsDigit bs)
    ∙ bytes_of-group bs h
