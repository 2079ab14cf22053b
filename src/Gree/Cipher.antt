-- ===== src/Gree/Cipher.antt =====
-- gree.go: packs are AES in ECB mode, padded to whole blocks and written in base64.
--
-- The block cipher is a parameter. The padding is not looked at when a pack is read: what stands after the
-- last closing brace is dropped.
use camonitor.Prelude.{
  ℕ, zero, suc, ◌+◌, ◌-◌, ◌*◌, ◌/◌, ◌%◌, ◌<◌, ◌≤◌, ◌≡◌, ◌∙◌, refl, ap, Bool, true, false, not, ◌||◌,
  [], ◌∷◌, ◌++◌, append_assoc, Option, none, some, arith, ◌==◌, if◌then◌else◌, length, take, drop,
  length-append, All, All-append, All-take, All-drop, Text, last_index_of, take-append-drop,
  length-take, length-drop, take-append_self, drop-append_self,
}
use camonitor.Encoding.Decode.{IsByte}
use camonitor.Encoding.Std.{base64_std, decode_base64_std, decode-base64_std}

abbrev pub block_size : ℕ
block_size = 16

-- The block cipher under a key of a length that it takes.
pub record Aes : Type 0 where
  pub encrypt : Text → Text → Text
  pub decrypt : Text → Text → Text

-- A block that was encrypted is a block of bytes, and decrypts to what it was.
pub record IsCipher (aes : Aes) : Type 0 where
  pub size :
      (key b : Text)
      → All IsByte b
      → length b ≡ block_size
      → length (aes.encrypt key b) ≡ block_size
  pub bytes : (key b : Text) → All IsByte b → length b ≡ block_size → All IsByte (aes.encrypt key b)
  pub inverse :
      (key b : Text)
      → All IsByte b
      → length b ≡ block_size
      → aes.decrypt key (aes.encrypt key b) ≡ b

-- The keys that `aes.NewCipher` takes.
abbrev pub is_key : Text → Bool
is_key key = (length key == 16) || ((length key == 24) || (length key == 32))

abbrev pub repeat : ℕ → ℕ → Text
repeat zero b = []
repeat (suc n) b = b ∷ repeat n b

unfoldable pub pad : Text → Text
pad s = let pad_len = block_size - length s % block_size in s ++ repeat pad_len pad_len

-- A function at each of the first `n` blocks.
unfoldable pub each_block : ℕ → (Text → Text) → Text → Text
each_block zero f s = []
each_block (suc n) f s = f (take block_size s) ++ each_block n f (drop block_size s)

unfoldable pub gree_encrypt : Aes → Text → Text → Option Text
unfolding pad each_block
gree_encrypt aes plaintext key =
    if is_key key
    then some (
        base64_std
          (each_block (length (pad plaintext) / block_size) (aes.encrypt key) (pad plaintext)))
    else none

-- Up to the last closing brace, if there is one.
unfoldable pub to_last_brace : Text → Text
to_last_brace s = elim (last_index_of b'}' s) [ none ↦ s | some i ↦ take (suc i) s ]

decrypt_blocks : Aes → Text → Text → Option Text
unfolding to_last_brace each_block
decrypt_blocks aes key s =
    if not (is_key key)
    then none
    else if not (length s % block_size == 0)
    then none
    else some (to_last_brace (each_block (length s / block_size) (aes.decrypt key) s))

unfoldable pub gree_decrypt : Aes → Text → Text → Option Text
unfolding decrypt_blocks
gree_decrypt aes encoded key = elim (decode_base64_std encoded) [
  | none ↦ none
  | some s ↦ decrypt_blocks aes key s
]

length-repeat : (n b : ℕ) → length (repeat n b) ≡ n
length-repeat zero b = refl
length-repeat (suc n) b = ap suc (length-repeat n b)

repeat-IsByte : (n b : ℕ) → b < 256 → All IsByte (repeat n b)
repeat-IsByte zero b h = tt
repeat-IsByte (suc n) b h = (h, repeat-IsByte n b h)

-- Whole blocks, at least one byte more.
length-pad : (s : Text) → length (pad s) ≡ (length s / block_size + 1) * block_size
unfolding pad
length-pad s =
    let p : ℕ = block_size - length s % block_size in
    omega (arith, length-append s (repeat p p), length-repeat p p)

pad-IsByte : (s : Text) → All IsByte s → All IsByte (pad s)
unfolding pad
pad-IsByte s h =
    let p : ℕ = block_size - length s % block_size in
    All-append IsByte s (repeat p p) h (repeat-IsByte p p (omega arith))

last_brace-repeat : (n b : ℕ) → b ≤ block_size → last_index_of b'}' (repeat n b) ≡ none
last_brace-repeat zero b h = refl
last_brace-repeat (suc n) b h =
    let e : (b == b'}') ≡ false = ground arith in rw (last_brace-repeat n b h, e) refl

to_last_brace-append :
    (s t : Text)
    → last_index_of b'}' t ≡ none
    → last_index_of b'}' (s ++ (b'}' ∷ t)) ≡ some (length s)
to_last_brace-append [] t h = rw h refl
to_last_brace-append (c ∷ s) t h = rw (to_last_brace-append s t h) refl

take-body : (s : Text) (c : ℕ) (t : Text) → take (suc (length s)) (s ++ (c ∷ t)) ≡ s ++ c ∷ []
take-body [] c t = refl
take-body (b ∷ s) c t = ap (◌∷◌ b) (take-body s c t)

to_last_brace-pad : (s : Text) → to_last_brace (pad (s ++ b'}' ∷ [])) ≡ s ++ b'}' ∷ []
unfolding to_last_brace pad
to_last_brace-pad s =
    let p : ℕ = block_size - length (s ++ b'}' ∷ []) % block_size in
    let regroup : (s ++ b'}' ∷ []) ++ repeat p p ≡ s ++ (b'}' ∷ repeat p p) =
      append_assoc s (b'}' ∷ []) (repeat p p) in
    let found : last_index_of b'}' (s ++ (b'}' ∷ repeat p p)) ≡ some (length s) =
      to_last_brace-append s (repeat p p) (last_brace-repeat p p (omega arith)) in
    ap to_last_brace regroup ∙ rw (to_last_brace, found) (take-body s b'}' (repeat p p))

module _ (aes : Aes) (cipher : IsCipher aes) (key : Text) where
  first_block :
      (n : ℕ) (s : Text)
      → length s ≡ suc n * block_size
      → (length (take block_size s) ≡ block_size) × (length (drop block_size s) ≡ n * block_size)
  first_block n s h = omega (arith, length-take block_size s, length-drop block_size s)

  each_block_shape :
      (n : ℕ) (s : Text)
      → length s ≡ n * block_size
      → All IsByte s
      → (length (each_block n (aes.encrypt key) s) ≡ n * block_size)
        × All IsByte (each_block n (aes.encrypt key) s)
  unfolding each_block
  each_block_shape zero s h b = (omega arith, tt)
  each_block_shape (suc n) s h b =
      let cut = first_block n s h in
      let head_bytes = All-take IsByte block_size s b in
      let rest = each_block_shape n (drop block_size s) cut.1 (All-drop IsByte block_size s b) in
      let size = cipher.size key (take block_size s) head_bytes cut.0 in
      (
        omega (
          arith,
          length-append (aes.encrypt key (take block_size s))
              (each_block n (aes.encrypt key) (drop block_size s)),
          size,
          rest.0,
        ),
        All-append IsByte (aes.encrypt key (take block_size s))
            (each_block n (aes.encrypt key) (drop block_size s))
            (cipher.bytes key (take block_size s) head_bytes cut.0) rest.1,
      )

  each_block_inverse :
      (n : ℕ) (s : Text)
      → length s ≡ n * block_size
      → All IsByte s
      → each_block n (aes.decrypt key) (each_block n (aes.encrypt key) s) ≡ s
  unfolding each_block
  each_block_inverse zero [] h b = refl
  each_block_inverse zero (c ∷ s) h b = absurd (omega arith)
  each_block_inverse (suc n) s h b =
      let cut = first_block n s h in
      let head_bytes = All-take IsByte block_size s b in
      let e : Text = aes.encrypt key (take block_size s) in
      let rest : Text = each_block n (aes.encrypt key) (drop block_size s) in
      let size : length e ≡ block_size = cipher.size key (take block_size s) head_bytes cut.0 in
      ap (λ t. aes.decrypt key t ++ each_block n (aes.decrypt key) (drop block_size (e ++ rest)))
        (take-append_self block_size e rest size)
      ∙ ap (λ t. aes.decrypt key e ++ each_block n (aes.decrypt key) t)
          (drop-append_self block_size e rest size)
      ∙ ap (λ t. t ++ each_block n (aes.decrypt key) rest)
          (cipher.inverse key (take block_size s) head_bytes cut.0)
      ∙ ap (λ t. take block_size s ++ t)
          (each_block_inverse n (drop block_size s) cut.1 (All-drop IsByte block_size s b))
      ∙ take-append-drop block_size s

  read_blocks :
      (encoded s : Text) (n : ℕ)
      → decode_base64_std encoded ≡ some s
      → is_key key ≡ true
      → length s ≡ n * block_size
      → gree_decrypt aes encoded key ≡ some (to_last_brace (each_block n (aes.decrypt key) s))
  unfolding gree_decrypt decrypt_blocks
  read_blocks encoded s n e k h =
      let aligned : (length s % block_size == 0) ≡ true = ground arith in
      let blocks : length s / block_size ≡ n = omega arith in
      rw (e, gree_decrypt) (rw (k, aligned, blocks) refl)

  -- A text that ends in a closing brace, such as a JSON object, is read back from the pack that it was
  -- encrypted to under a key of a length that AES takes.
  pub gree_decrypt-encrypt :
      (body : Text)
      → All IsByte body
      → is_key key ≡ true
      → (pack : Text) × (gree_encrypt aes (body ++ b'}' ∷ []) key ≡ some pack)
        × (gree_decrypt aes pack key ≡ some (body ++ b'}' ∷ []))
  unfolding gree_encrypt
  gree_decrypt-encrypt body b k =
      let plain : Text = body ++ b'}' ∷ [] in
      let n : ℕ = length (pad plain) / block_size in
      let whole : length (pad plain) ≡ n * block_size = omega (arith, length-pad plain) in
      let bytes : All IsByte (pad plain) =
        pad-IsByte plain (All-append IsByte body (b'}' ∷ []) b (omega arith, tt)) in
      let ciphertext : Text = each_block n (aes.encrypt key) (pad plain) in
      let shape = each_block_shape n (pad plain) whole bytes in
      (
        base64_std ciphertext,
        rw k refl,
        read_blocks (base64_std ciphertext) ciphertext n (decode-base64_std ciphertext shape.1) k
              shape.0
            ∙ ap (λ t. some (to_last_brace t)) (each_block_inverse n (pad plain) whole bytes)
            ∙ ap some (to_last_brace-pad body),
      )
