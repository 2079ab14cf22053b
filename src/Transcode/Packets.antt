-- ===== src/Transcode/Packets.antt =====
-- transcode.go: the packets that are forwarded.
use camonitor.Prelude.{
  ℕ, zero, suc, ◌+◌, ◌*◌, ◌/◌, ◌≤◌, ◌<◌, ◌≡◌, ◌∙◌, refl, true, false, [], ◌∷◌, none, some, arith,
  ltb, length, get_or, All, Text, ℤ, ◌+ℤ◌,
}
use camonitor.Encoding.Decode.{IsByte}
use camonitor.Transcode.{Packet, int16_of, half, linear_to_alaw, decimate, l16_to_pcma}
use camonitor.Transcode.Samples.{linear_to_alaw-IsByte}

-- The sample that two bytes of a payload make, high byte first.
abbrev pub sample_at : Text → ℕ → ℤ
sample_at s i = int16_of (get_or s (2 * i) 0 * 256 + get_or s (2 * i + 1) 0)

length-decimate : (s : Text) → length (decimate s) ≡ length s / 4
unfolding decimate
length-decimate [] = refl
length-decimate (a ∷ []) = refl
length-decimate (a ∷ b ∷ []) = refl
length-decimate (a ∷ b ∷ c ∷ []) = refl
length-decimate (a ∷ b ∷ c ∷ d ∷ s) = omega (arith, length-decimate s)

decimate-IsByte : (s : Text) → All IsByte (decimate s)
unfolding decimate
decimate-IsByte [] = tt
decimate-IsByte (a ∷ []) = tt
decimate-IsByte (a ∷ b ∷ []) = tt
decimate-IsByte (a ∷ b ∷ c ∷ []) = tt
decimate-IsByte (a ∷ b ∷ c ∷ d ∷ s) = (linear_to_alaw-IsByte _, decimate-IsByte s)

shifted :
    (a b c d : ℕ) (s : Text) (i : ℕ) → sample_at (a ∷ b ∷ c ∷ d ∷ s) (suc (suc i)) ≡ sample_at s i
shifted a b c d s i =
    let e : 2 * suc (suc i) ≡ suc (suc (suc (suc (2 * i)))) = omega arith in
    let f : 2 * suc (suc i) + 1 ≡ suc (suc (suc (suc (2 * i + 1)))) = omega arith in rw (f, e) refl

get_or-decimate :
    (s : Text) (i : ℕ)
    → i < length s / 4
    → get_or (decimate s) i 0
      ≡ linear_to_alaw (half (sample_at s (2 * i) +ℤ sample_at s (2 * i + 1)))
unfolding decimate
get_or-decimate [] i h = absurd (omega arith)
get_or-decimate (a ∷ []) i h = absurd (omega arith)
get_or-decimate (a ∷ b ∷ []) i h = absurd (omega arith)
get_or-decimate (a ∷ b ∷ c ∷ []) i h = absurd (omega arith)
get_or-decimate (a ∷ b ∷ c ∷ d ∷ s) zero h = refl
get_or-decimate (a ∷ b ∷ c ∷ d ∷ s) (suc i) h =
    let e : 2 * suc i ≡ suc (suc (2 * i)) = omega arith in
    let f : 2 * suc i + 1 ≡ suc (suc (2 * i + 1)) = omega arith in
    get_or-decimate s i (omega arith)
    ∙ rw (f, e) (rw (shifted a b c d s (2 * i), shifted a b c d s (2 * i + 1)) refl)

-- A packet of L16 with two samples or more is forwarded at half its rate: its timestamp is halved, its
-- payload has a byte for every four, and the byte at each place is the A-law byte of the mean of the two
-- samples there. Every byte fits in eight bits. A shorter packet is not forwarded.
pub l16_to_pcma_exact :
    (p : Packet)
    → (length p.payload < 4 → l16_to_pcma p ≡ none)
      × (4 ≤ length p.payload
          → (q : Packet) × (l16_to_pcma p ≡ some q)
            × (q.timestamp ≡ p.timestamp / 2)
            × (q.header_rest ≡ p.header_rest)
            × (length q.payload ≡ length p.payload / 4)
            × All IsByte q.payload
            × ((i : ℕ)
                → i < length p.payload / 4
                → get_or q.payload i 0
                  ≡ linear_to_alaw
                      (half (sample_at p.payload (2 * i) +ℤ sample_at p.payload (2 * i + 1)))))
unfolding l16_to_pcma
l16_to_pcma_exact p = (
  λ h. let short : ltb (length p.payload / 2) 2 ≡ true = ground arith in rw short refl,
  λ h.
      let long : ltb (length p.payload / 2) 2 ≡ false = ground arith in
      (
        _,
        rw long refl,
        refl,
        refl,
        length-decimate p.payload,
        decimate-IsByte p.payload,
        get_or-decimate p.payload,
      ),
)
