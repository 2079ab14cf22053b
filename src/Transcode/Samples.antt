-- ===== src/Transcode/Samples.antt =====
-- transcode.go: what an A-law byte says of its sample.
use Prim.Native.Nat.{bit_xor}
use camonitor.Prelude.{
  ℕ, zero, suc, ◌+◌, ◌*◌, ◌/◌, ◌%◌, ◌^◌, ◌≤◌, ◌<◌, ◌≡◌, refl, ap, Bool, true, ◌&&◌, arith, ltb,
  ◌==◌, if◌then◌else◌, ℤ, pos, negsuc,
}
use camonitor.Transcode.{segment, mantissa, alaw_bits, linear_to_alaw, clip}

-- The least magnitude of a code of seven bits, and how many magnitudes share it.
abbrev pub alaw_low : ℕ → ℕ
alaw_low code = if code / 16 == 0 then code % 16 * 16 else (code % 16 + 16) * 2 ^ (code / 16 + 3)

abbrev pub alaw_step : ℕ → ℕ
alaw_step code = if code / 16 == 0 then 16 else 2 ^ (code / 16 + 3)

alaw_bits_interval :
    (n : ℕ)
    → n < 32768
    → (alaw_bits n < 128)
      × (alaw_low (alaw_bits n) ≤ n)
      × (n < alaw_low (alaw_bits n) + alaw_step (alaw_bits n))
unfolding alaw_bits segment mantissa
alaw_bits_interval n h = ground arith

-- The decoder's first step undoes the inversion of bits: above 127 for a sample that is not negative.
uninverted : ℕ → Bool
uninverted x =
    ((bit_xor (bit_xor x 0xD5) 0x55 == x + 128) && (bit_xor (bit_xor x 0x55) 0x55 == x))
    && (ltb (bit_xor x 0xD5) 256 && ltb (bit_xor x 0x55) 256)

all_uninverted : ℕ → Bool
all_uninverted zero = true
all_uninverted (suc n) = uninverted n && all_uninverted n

all_uninverted_128 : all_uninverted 128 ≡ true
unfolding all_uninverted uninverted
all_uninverted_128 = refl

uninverted_below : (n x : ℕ) → all_uninverted n ≡ true → x < n → uninverted x ≡ true
unfolding all_uninverted
uninverted_below zero x h lt = absurd (omega arith)
uninverted_below (suc n) x h lt = ground (arith, uninverted_below n x, ap uninverted)

uninverted_lem :
    (x : ℕ)
    → x < 128
    → (bit_xor (bit_xor x 0xD5) 0x55 ≡ x + 128)
      × (bit_xor (bit_xor x 0x55) 0x55 ≡ x)
      × (bit_xor x 0xD5 < 256)
      × (bit_xor x 0x55 < 256)
unfolding uninverted
uninverted_lem x h = ground (arith, uninverted_below 128 x all_uninverted_128 h)

-- What a byte stands for: the sign, and the magnitudes between two bounds.
abbrev pub Stands : ℕ → ℤ → Type 0
Stands b (pos n) =
    (128 ≤ bit_xor b 0x55)
    × (alaw_low (bit_xor b 0x55 % 128) ≤ clip n)
    × (clip n < alaw_low (bit_xor b 0x55 % 128) + alaw_step (bit_xor b 0x55 % 128))
Stands b (negsuc n) =
    (bit_xor b 0x55 < 128)
    × (alaw_low (bit_xor b 0x55 % 128) ≤ clip n)
    × (clip n < alaw_low (bit_xor b 0x55 % 128) + alaw_step (bit_xor b 0x55 % 128))

clip_small : (n : ℕ) → clip n < 32768
clip_small n = ground arith

-- A byte that was made from a sample, read as A-law has it, has the sample's sign, and stands
-- for an interval of magnitudes that holds the sample's, clipped at 32635: an interval of 16 magnitudes
-- near zero, and of twice as many in each segment above the second.
pub linear_to_alaw-Stands : (x : ℤ) → Stands (linear_to_alaw x) x
unfolding linear_to_alaw
linear_to_alaw-Stands (pos n) =
    let (small, low, high) = alaw_bits_interval (clip n) (clip_small n) in
    let (plus, minus, above, below) = uninverted_lem (alaw_bits (clip n)) small in
    let code : (alaw_bits (clip n) + 128) % 128 ≡ alaw_bits (clip n) = omega arith in
    rw plus (rw code (omega arith, low, high))
linear_to_alaw-Stands (negsuc n) =
    let (small, low, high) = alaw_bits_interval (clip n) (clip_small n) in
    let (plus, minus, above, below) = uninverted_lem (alaw_bits (clip n)) small in
    let code : alaw_bits (clip n) % 128 ≡ alaw_bits (clip n) = omega arith in
    rw minus (rw code (small, low, high))

pub linear_to_alaw-IsByte : (x : ℤ) → linear_to_alaw x < 256
unfolding linear_to_alaw
linear_to_alaw-IsByte (pos n) =
    let (small, low, high) = alaw_bits_interval (clip n) (clip_small n) in
    let (plus, minus, above, below) = uninverted_lem (alaw_bits (clip n)) small in above
linear_to_alaw-IsByte (negsuc n) =
    let (small, low, high) = alaw_bits_interval (clip n) (clip_small n) in
    let (plus, minus, above, below) = uninverted_lem (alaw_bits (clip n)) small in below
