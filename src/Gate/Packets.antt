-- ===== src/Gate/Packets.antt =====
-- centsys_packets.go: the way of a packet there and back, and what a report can say.
use Prim.Native.Nat.{bit_xor}
use camonitor.Prelude.{
  ℕ, zero, suc, ◌+◌, ◌%◌, ◌<◌, ◌≤◌, ◌≡◌, ◌≢◌, ◌⊎◌, ◌↔◌, ◌∙◌, refl, ap, Bool, true, false, ◌&&◌, inl,
  inr, [], ◌∷◌, some, arith, ltb, ◌==◌, ==_iff, length-drop, length, get_or, drop, All, Text,
}
use camonitor.Gate.{
  centsys_key, key_from, centsys_xor, xor_from, decode_cmd04, decode_overview, gate_open,
  gate_unknown,
}

all_below : ℕ → (ℕ → Bool) → Bool
all_below zero p = true
all_below (suc n) p = p n && all_below n p

below_all : (n i : ℕ) (p : ℕ → Bool) → i < n → all_below n p ≡ true → p i ≡ true
unfolding all_below
below_all zero i p h e = absurd (omega arith)
below_all (suc n) i p h e = ground (arith, below_all n i p, ap p)

xor_table : all_below 256 (λ a. all_below 256 (λ b. bit_xor (bit_xor a b) b == a)) ≡ true
unfolding all_below
xor_table = refl

xor_size_table : all_below 256 (λ a. all_below 256 (λ b. ltb (bit_xor a b) 256)) ≡ true
unfolding all_below
xor_size_table = refl

abbrev pub IsByte : ℕ → Type 0
IsByte b = b < 256

xor_twice : (a b : ℕ) → IsByte a → IsByte b → bit_xor (bit_xor a b) b ≡ a
xor_twice a b ha hb =
    let row =
      below_all 256 a (λ a. all_below 256 (λ b. bit_xor (bit_xor a b) b == a)) ha xor_table in
    (==_iff (bit_xor (bit_xor a b) b) a).0
      (below_all 256 b (λ b. bit_xor (bit_xor a b) b == a) hb row)

xor-IsByte : (a b : ℕ) → IsByte a → IsByte b → IsByte (bit_xor a b)
xor-IsByte a b ha hb =
    let row = below_all 256 a (λ a. all_below 256 (λ b. ltb (bit_xor a b) 256)) ha xor_size_table in
    let e : ltb (bit_xor a b) 256 ≡ true = below_all 256 b (λ b. ltb (bit_xor a b) 256) hb row in
    ground arith

get_or-IsByte : (xs : Text) (i : ℕ) → All IsByte xs → IsByte (get_or xs i 0)
get_or-IsByte [] i h = omega arith
get_or-IsByte (x ∷ xs) zero h = h.0
get_or-IsByte (x ∷ xs) (suc i) h = get_or-IsByte xs i h.1

xor_from_twice :
    (i : ℕ) (bs key : Text)
    → All IsByte bs
    → All IsByte key
    → xor_from i (xor_from i bs key) key ≡ bs
unfolding xor_from
xor_from_twice i [] key h k = refl
xor_from_twice i (b ∷ bs) key h k =
    ap (λ x. x ∷ xor_from (suc i) (xor_from (suc i) bs key) key)
      (xor_twice b (get_or key (i % length key) 0) h.0 (get_or-IsByte key (i % length key) k))
    ∙ ap (◌∷◌ b) (xor_from_twice (suc i) bs key h.1 k)

-- The obfuscation undoes itself.
pub centsys_xor_twice :
    (bs key : Text) → All IsByte bs → All IsByte key → centsys_xor (centsys_xor bs key) key ≡ bs
unfolding centsys_xor
centsys_xor_twice bs key h k = xor_from_twice 0 bs key h k

centsys_key-IsByte : (mac4 : Text) → All IsByte mac4 → All IsByte (centsys_key mac4)
unfolding centsys_key key_from
centsys_key-IsByte mac4 h =
    let byte : (i : ℕ) (b : ℕ) → IsByte b → IsByte (bit_xor b (get_or mac4 i 0)) =
      λ i b hb. xor-IsByte b (get_or mac4 i 0) hb (get_or-IsByte mac4 i h) in
    (
      byte 0 0x38 (omega arith),
      (
        byte 1 0x98 (omega arith),
        (
          byte 2 0x3f (omega arith),
          (
            byte 3 0xba (omega arith),
            (omega arith, (omega arith, (omega arith, (omega arith, tt)))),
          ),
        ),
      ),
    )

length-xor_from : (i : ℕ) (bs key : Text) → length (xor_from i bs key) ≡ length bs
unfolding xor_from
length-xor_from i [] key = refl
length-xor_from i (b ∷ bs) key = ap suc (length-xor_from (suc i) bs key)

length-centsys_xor : (bs key : Text) → length (centsys_xor bs key) ≡ length bs
unfolding centsys_xor
length-centsys_xor bs key = length-xor_from 0 bs key

decode_long :
    (mac4 payload : Text)
    → ltb (length payload) 6 ≡ false
    → let body = centsys_xor (drop 4 payload) (centsys_key mac4) in
      decode_cmd04 mac4 payload ≡ some (get_or body 1 0, get_or body 0 0)
unfolding decode_cmd04
decode_long mac4 payload h = rw (h, decode_cmd04) refl

get_or-drop : (n i : ℕ) (xs : Text) → get_or (drop n xs) i 0 ≡ get_or xs (n + i) 0
get_or-drop zero i xs = ap (λ k. get_or xs k 0) (omega arith)
get_or-drop (suc n) i [] = refl
get_or-drop (suc n) i (x ∷ xs) =
    let e : suc (n + i) ≡ suc n + i = omega arith in
    get_or-drop n i xs ∙ ap (λ k. get_or (x ∷ xs) k 0) e

-- What the operator answers to an activation is read back: a packet of four header bytes and the
-- obfuscated body, in which the configuration's version comes first and the response code second, is
-- decoded to these two, whatever follows them.
pub decode_cmd04_reply :
    (mac4 rest : Text) (h0 h1 h2 h3 version code : ℕ)
    → All IsByte mac4
    → All IsByte (version ∷ code ∷ rest)
    → decode_cmd04 mac4 (h0 ∷ h1 ∷ h2 ∷ h3 ∷ centsys_xor (version ∷ code ∷ rest) (centsys_key mac4))
      ≡ some (code, version)
decode_cmd04_reply mac4 rest h0 h1 h2 h3 version code m h =
    let key : Text = centsys_key mac4 in
    let body : Text = centsys_xor (version ∷ code ∷ rest) key in
    decode_long mac4 (h0 ∷ h1 ∷ h2 ∷ h3 ∷ body)
      (long_enough body (omega (arith, length-centsys_xor (version ∷ code ∷ rest) key)))
    ∙ ap (λ bs. some (get_or bs 1 0, get_or bs 0 0))
        (centsys_xor_twice (version ∷ code ∷ rest) key h (centsys_key-IsByte mac4 m))
  where
    long_enough :
        (body : Text) → 2 ≤ length body → ltb (suc (suc (suc (suc (length body))))) 6 ≡ false
    long_enough body k = ground arith

-- A report whose status byte no state of the operator has, above 5 in either family, reads as an open
-- gate.
pub decode_overview_unlisted :
    (payload : Text)
    → ((length payload ≡ 28) × (5 < get_or payload 16 0))
      ⊎ ((40 ≤ length payload) × (5 < get_or payload 26 0))
    → decode_overview payload ≡ gate_open
unfolding decode_overview
decode_overview_unlisted payload (inl (n, b)) =
    ground (arith, length-drop 4 payload, get_or-drop 4 12 payload)
decode_overview_unlisted payload (inr (n, b)) =
    ground (arith, length-drop 4 payload, get_or-drop 4 22 payload)

-- A report reads as unknown by its length alone: just where it is neither 28 bytes long nor 40 or more.
pub decode_overview_unknown :
    (payload : Text)
    → (decode_overview payload ≡ gate_unknown) ↔ ((length payload ≢ 28) × (length payload < 40))
unfolding decode_overview
decode_overview_unknown payload =
    (λ e. ground (arith, length-drop 4 payload), λ h. ground (arith, length-drop 4 payload))
