-- ===== src/Encoding.antt =====
-- The encodings of Go's standard library that the program writes its codes, tokens and hashes
-- with: hex, base32 and unpadded URL base64. All three cut the bits of the bytes, highest first,
-- into groups, and fill the last group with zeros.
pub mod Decode
pub mod Std
use camonitor.Prelude.{
  ℕ, zero, suc, ◌+◌, ◌-◌, ◌*◌, ◌/◌, ◌%◌, ◌^◌, ◌<◌, ◌≤◌, ◌≡◌, Bool, true, false, List, [], ◌∷◌, ◌++◌,
  map, arith, ◌==◌, if◌then◌else◌, length, get_or, Text, codes, length-map, Bool-cases, ==_iff, inl,
  inr,
}

bits_of : ℕ → List ℕ
bits_of b =
    (b / 128) % 2
    ∷ (b / 64) % 2
    ∷ (b / 32) % 2
    ∷ (b / 16) % 2
    ∷ (b / 8) % 2
    ∷ (b / 4) % 2
    ∷ (b / 2) % 2
    ∷ b % 2
    ∷ []

bits : Text → List ℕ
unfolding bits_of
bits [] = []
bits (b ∷ bs) = bits_of b ++ bits bs

abbrev emit : Bool → ℕ → List ℕ → List ℕ
emit true v rest = v ∷ rest
emit false v rest = rest

-- `n` bits of the current group are in `v`.
group : ℕ → List ℕ → ℕ → ℕ → List ℕ
group k [] zero v = []
group k [] (suc n) v = v * 2 ^ (k - suc n) ∷ []
group k (b ∷ bs) n v =
    emit (n + 1 == k) (v * 2 + b)
      (group k bs (if n + 1 == k then 0 else n + 1) (if n + 1 == k then 0 else v * 2 + b))

abbrev hex_alphabet : Text
hex_alphabet = codes "0123456789abcdef"

abbrev base32_alphabet : Text
base32_alphabet = codes "ABCDEFGHIJKLMNOPQRSTUVWXYZ234567"

abbrev base64_url_alphabet : Text
base64_url_alphabet = codes "ABCDEFGHIJKLMNOPQRSTUVWXYZabcdefghijklmnopqrstuvwxyz0123456789-_"

encode : ℕ → Text → Text → Text
unfolding bits group
encode k alphabet bs = map (λ d. get_or alphabet d 0) (group k (bits bs) 0 0)

-- `hex.EncodeToString`
unfoldable pub hex : Text → Text
unfolding encode
hex = encode 4 hex_alphabet

-- `base32.StdEncoding.WithPadding(base32.NoPadding).EncodeToString`
unfoldable pub base32 : Text → Text
unfolding encode
base32 = encode 5 base32_alphabet

-- `base64.RawURLEncoding.EncodeToString`
unfoldable pub base64_raw_url : Text → Text
unfolding encode
base64_raw_url = encode 6 base64_url_alphabet

length-bits : (bs : Text) → length (bits bs) ≡ 8 * length bs
unfolding bits
length-bits [] = omega arith
length-bits (b ∷ bs) = omega (arith, length-bits bs)

-- Whole groups and one more for what is left over.
length-group :
    (k : ℕ) (bs : List ℕ) (n v : ℕ)
    → n < k
    → (k * length (group k bs n v) < n + length bs + k)
      × (n + length bs ≤ k * length (group k bs n v))
unfolding group
length-group k [] zero v h = ground arith
length-group k [] (suc n) v h = ground arith
length-group k (b ∷ bs) n v h = elim (Bool-cases (n + 1 == k)) [
  | inl full ↦ rw full (
      let e : n + 1 ≡ k = (==_iff (n + 1) k).0 full in
      omega (arith, length-group k bs 0 0 (omega arith), e))
  | inr open_group ↦
      rw open_group
        (let e : n + 1 < k = ground arith in omega (arith, length-group k bs (n + 1) (v * 2 + b) e))
]

-- Two digits to a byte.
pub length-hex : (bs : Text) → length (hex bs) ≡ 2 * length bs
unfolding hex
length-hex bs =
    omega (arith, length-map {0, 0}, length-bits bs, length-group 4 (bits bs) 0 0 (omega arith))

-- Five bits to a character, the last one filled up.
pub length-base32 :
    (bs : Text)
    → (5 * length (base32 bs) < 8 * length bs + 5) × (8 * length bs ≤ 5 * length (base32 bs))
unfolding base32
length-base32 bs =
    omega (arith, length-map {0, 0}, length-bits bs, length-group 5 (bits bs) 0 0 (omega arith))
