-- ===== src/Transcode/Examples.antt =====
-- Tests of the sound, and its theorems at concrete inputs.

use camonitor.Prelude.{
  ℕ, ◌+◌, ◌*◌, ◌/◌, ◌≤◌, ◌<◌, ◌≡◌, refl, [], ◌∷◌, none, some, length, get_or, All, pos, negsuc,
  ◌+ℤ◌,
}
use camonitor.Encoding.Decode.{IsByte}
use camonitor.Transcode.{
  Packet, int16_of, half, segment, mantissa, alaw_bits, linear_to_alaw, ulaw_to_linear, decimate,
  l16_to_pcma,
}
use camonitor.Transcode.Samples.{Stands, linear_to_alaw-Stands}
use camonitor.Transcode.Packets.{sample_at, l16_to_pcma_exact}

-- Silence, the largest samples and the least one.
alaw_runs :
    (linear_to_alaw (pos 0) ≡ 0xD5)
    × (linear_to_alaw (negsuc 0) ≡ 0x55)
    × (linear_to_alaw (pos 32767) ≡ 0xAA)
    × (linear_to_alaw (negsuc 32767) ≡ 0x2A)
unfolding linear_to_alaw alaw_bits segment mantissa
alaw_runs = (refl, refl, refl, refl)

ulaw_runs :
    (ulaw_to_linear 0xFF ≡ pos 0)
    × (ulaw_to_linear 0x80 ≡ pos 32124)
    × (ulaw_to_linear 0 ≡ negsuc 32123)
unfolding ulaw_to_linear
ulaw_runs = (refl, refl, refl)

linear_to_alaw-Stands_example : Stands (linear_to_alaw (negsuc 1000)) (negsuc 1000)
linear_to_alaw-Stands_example = linear_to_alaw-Stands (negsuc 1000)

abbrev packet : Packet
packet = record {
  timestamp = 641;
  header_rest = [];
  payload = 0 ∷ 100 ∷ 255 ∷ 255 ∷ 128 ∷ 0 ∷ 128 ∷ 0 ∷ 7 ∷ [];
}

l16_to_pcma_exact_example :
    (length packet.payload < 4 → l16_to_pcma packet ≡ none)
    × (4 ≤ length packet.payload
        → (q : Packet) × (l16_to_pcma packet ≡ some q)
          × (q.timestamp ≡ packet.timestamp / 2)
          × (q.header_rest ≡ packet.header_rest)
          × (length q.payload ≡ length packet.payload / 4)
          × All IsByte q.payload
          × ((i : ℕ)
              → i < length packet.payload / 4
              → get_or q.payload i 0
                ≡ linear_to_alaw (
                    half
                      (sample_at packet.payload (2 * i) +ℤ sample_at packet.payload (2 * i + 1)))))
l16_to_pcma_exact_example = l16_to_pcma_exact packet

decimated : decimate packet.payload ≡ linear_to_alaw (pos 49) ∷ linear_to_alaw (negsuc 32767) ∷ []
unfolding decimate int16_of half ◌+ℤ◌
decimated = refl
