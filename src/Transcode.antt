-- ===== src/Transcode.antt =====
-- transcode.go: the camera's sound as A-law.
--
-- A packet's header is its timestamp and the rest. Bytes are numbers below 256, samples are signed.
pub mod Samples
pub mod Packets
pub mod Negotiated
mod Examples
use Prim.Native.Nat.{bit_xor}
use camonitor.Prelude.{
  ℕ, suc, ◌+◌, ◌-◌, ◌*◌, ◌/◌, ◌%◌, ◌^◌, Bool, List, [], ◌∷◌, Option, none, some, map, ltb, leb,
  ◌==◌, if◌then◌else◌, length, Text, codes, text_eq, ℤ, pos, negsuc, ◌+ℤ◌, ◌-ℤ◌, sub_ℕ,
}

-- The bits of a 16-bit word as a signed sample.
unfoldable pub int16_of : ℕ → ℤ
int16_of v = if ltb v 32768 then pos v else negsuc (65535 - v)

-- Division by two, towards zero.
unfoldable pub half : ℤ → ℤ
half (pos n) = pos (n / 2)
half (negsuc n) = sub_ℕ 0 (suc n / 2)

abbrev pub c_clip : ℕ
c_clip = 32635

abbrev pub clip : ℕ → ℕ
clip n = if ltb c_clip n then c_clip else n

unfoldable pub segment : ℕ → ℕ
segment n =
    if ltb n 256
    then 0
    else if ltb n 512
    then 1
    else if ltb n 1024
    then 2
    else if ltb n 2048
    then 3
    else if ltb n 4096
    then 4
    else if ltb n 8192
    then 5
    else if ltb n 16384
    then 6
    else 7

unfoldable pub mantissa : ℕ → ℕ → ℕ
mantissa seg n = if seg == 0 then n / 16 % 16 else n / 2 ^ (seg + 3) % 16

-- Segment and mantissa of a magnitude.
unfoldable pub alaw_bits : ℕ → ℕ
unfolding segment mantissa
alaw_bits n = segment n * 16 + mantissa (segment n) n

-- A negative sample is inverted first, which makes -1 the magnitude 0.
unfoldable pub linear_to_alaw : ℤ → ℕ
unfolding alaw_bits
linear_to_alaw (pos n) = bit_xor (alaw_bits (clip n)) 0xD5
linear_to_alaw (negsuc n) = bit_xor (alaw_bits (clip n)) 0x55

abbrev pub bias : ℕ
bias = 132

-- The magnitude, with the bias, of an inverted mu-law byte.
abbrev biased : ℕ → ℕ
biased u = (u % 16 * 8 + bias) * 2 ^ (u / 16 % 8)

unfoldable pub ulaw_to_linear : ℕ → ℤ
ulaw_to_linear ulaw =
    let u : ℕ = 255 - ulaw in
    if u / 128 % 2 == 1 then sub_ℕ bias (biased u) else sub_ℕ (biased u) bias

pub record Packet : Type 0 where
  pub timestamp : ℕ
  pub header_rest : Text
  pub payload : Text

-- Two samples of two bytes each make one byte; what is left over is dropped.
unfoldable pub decimate : Text → Text
unfolding int16_of half linear_to_alaw
decimate (a ∷ b ∷ c ∷ d ∷ s) =
    linear_to_alaw (half (int16_of (a * 256 + b) +ℤ int16_of (c * 256 + d))) ∷ decimate s
decimate s = []

-- The packet that is written, if one is.
unfoldable pub l16_to_pcma : Packet → Option Packet
unfolding decimate
l16_to_pcma p =
    if ltb (length p.payload / 2) 2
    then none
    else some (record p { timestamp = p.timestamp / 2; payload = decimate p.payload })

unfoldable pub ulaw_to_alaw : Packet → Option Packet
unfolding ulaw_to_linear linear_to_alaw
ulaw_to_alaw p =
    some (record p { payload = map (λ u. linear_to_alaw (ulaw_to_linear u)) p.payload })

abbrev pub forward_pcma : Packet → Option Packet
forward_pcma p = some p

unfoldable pub audio_forwarder : Text → Option (Packet → Option Packet)
unfolding l16_to_pcma ulaw_to_alaw
audio_forwarder codec =
    if text_eq codec (codes "PCMA")
    then some forward_pcma
    else if text_eq codec (codes "PCMU")
    then some ulaw_to_alaw
    else if text_eq codec (codes "L16")
    then some l16_to_pcma
    else none
