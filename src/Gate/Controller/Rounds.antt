-- ===== src/Gate/Controller/Rounds.antt =====
-- centsys.go: the rounds of the activation that end with an open gate.

use camonitor.Prelude.{
  ℕ, zero, suc, ◌+◌, ◌≤◌, ◌≡◌, ◌≢◌, ◌∙◌, refl, ap, Bool, true, false, not, List, [], ◌∷◌, ◌++◌,
  Option, none, some, arith, if◌then◌else◌, length, map, Text,
}
use camonitor.Gate.{build_cmd03_prefix, decode_cmd04}
use camonitor.Gate.Controller.{
  OpenResult, opened, publish_failed, no_response, activate, is_final, answered_code, replied,
}

-- The versions that are named to the gate, and its replies to them: each but the last is answered with a
-- mismatch and another version, which is the next one named, and the last is accepted.
pub data Agreed (mac4 : Text) : ℕ → List Text → List ℕ → Type 0 where
  accepted :
      (cv gate_cv : ℕ) (r : Text) (rs : List Text)
      → decode_cmd04 mac4 r ≡ some (1, gate_cv)
      → Agreed mac4 cv (r ∷ rs) (cv ∷ [])
  told :
      (cv gate_cv : ℕ) (r : Text) (rs : List Text) (cvs : List ℕ)
      → decode_cmd04 mac4 r ≡ some (7, gate_cv)
      → gate_cv ≢ cv
      → Agreed mac4 gate_cv rs cvs
      → Agreed mac4 cv (r ∷ rs) (cv ∷ cvs)

abbrev pub cmd03 : Text → Text → ℕ → Text
cmd03 mac4 challenge cv = build_cmd03_prefix mac4 cv ++ challenge

abbrev pub Activated : Text → Text → ℕ → ℕ → List Text → List Text → Type 0
Activated mac4 challenge rounds cv replies sent =
    (cvs : List ℕ) × Agreed mac4 cv replies cvs
    × (length cvs ≤ rounds)
    × (sent ≡ map (cmd03 mac4 challenge) cvs)

-- What holds of the publications of an attempt that opens.
abbrev pub IfOpened : {A : Type 0} → (A → Type 0) → OpenResult × A → Type 0
IfOpened P r = r.0 ≡ opened → P r.1

pub unless-IfOpened :
    {A : Type 0} (P : A → Type 0) (b : Bool) (x y : OpenResult × A)
    → (b ≡ true → IfOpened P x)
    → (b ≡ false → IfOpened P y)
    → IfOpened P (if b then x else y)
unless-IfOpened P true x y p q = p refl
unless-IfOpened P false x y p q = q refl

answered_code-opened : (code : ℕ) → answered_code code ≡ opened → code ≡ 1
answered_code-opened code h = ground arith

mismatch : (code gate_cv cv : ℕ) → is_final code gate_cv cv ≡ false → (code ≡ 7) × (gate_cv ≢ cv)
mismatch code gate_cv cv h = (ground arith, λ e. absurd (ground arith))

decided :
    (mac4 challenge : Text) (rounds cv : ℕ) (r : Text) (rs : List Text) (code gate_cv : ℕ)
    (next : ℕ → OpenResult × List Text) (b : Bool)
    → decode_cmd04 mac4 r ≡ some (code, gate_cv)
    → ((v : ℕ) → IfOpened (Activated mac4 challenge rounds v rs) (next v))
    → is_final code gate_cv cv ≡ b
    → IfOpened (Activated mac4 challenge (suc rounds) cv (r ∷ rs)) (
        if b
        then (answered_code code, cmd03 mac4 challenge cv ∷ [])
        else ((next gate_cv).0, cmd03 mac4 challenge cv ∷ (next gate_cv).1))
decided mac4 challenge rounds cv r rs code gate_cv next true e later f h =
    let same : code ≡ 1 = answered_code-opened code h in
    (cv ∷ [], accepted cv gate_cv r rs (e ∙ ap (λ n. some (n, gate_cv)) same), omega arith, refl)
decided mac4 challenge rounds cv r rs code gate_cv next false e later f h =
    let (same, apart) = mismatch code gate_cv cv f in
    let (cvs, agreed, few, sent) = later gate_cv h in
    (
      cv ∷ cvs,
      told cv gate_cv r rs cvs (e ∙ ap (λ n. some (n, gate_cv)) same) apart agreed,
      omega arith,
      ap (◌∷◌ (cmd03 mac4 challenge cv)) sent,
    )

replied-IfOpened :
    (mac4 challenge : Text) (rounds cv : ℕ) (r : Text) (rs : List Text) (o : Option (ℕ × ℕ))
    (next : ℕ → OpenResult × List Text)
    → decode_cmd04 mac4 r ≡ o
    → ((v : ℕ) → IfOpened (Activated mac4 challenge rounds v rs) (next v))
    → IfOpened
        (Activated mac4 challenge (suc rounds) cv (r ∷ rs))
        (replied (cmd03 mac4 challenge cv) cv o next)
replied-IfOpened mac4 challenge rounds cv r rs none next e later = λ h. absurd (cc)
replied-IfOpened mac4 challenge rounds cv r rs (some (code, gate_cv)) next e later =
    decided mac4 challenge rounds cv r rs code gate_cv next (is_final code gate_cv cv) e later refl

pub activate-Activated :
    (rounds : ℕ) (publishes : ℕ → Bool) (n : ℕ) (mac4 challenge : Text) (cv : ℕ)
    (replies : List Text)
    → IfOpened
        (Activated mac4 challenge rounds cv replies)
        (activate rounds publishes n mac4 challenge cv replies)
unfolding activate
activate-Activated zero publishes n mac4 challenge cv replies = λ h. absurd (cc)
activate-Activated (suc rounds) publishes n mac4 challenge cv [] =
    unless-IfOpened (Activated mac4 challenge (suc rounds) cv []) (not (publishes n))
      (publish_failed, []) (no_response, cmd03 mac4 challenge cv ∷ []) (λ _ h. absurd (cc))
      (λ _ h. absurd (cc))
activate-Activated (suc rounds) publishes n mac4 challenge cv (r ∷ replies) =
    let next : ℕ → OpenResult × List Text =
      (λ v. activate rounds publishes (n + 1) mac4 challenge v replies) in
    unless-IfOpened (Activated mac4 challenge (suc rounds) cv (r ∷ replies)) (not (publishes n))
      (publish_failed, []) (replied (cmd03 mac4 challenge cv) cv (decode_cmd04 mac4 r) next)
      (λ _ h. absurd (cc))
      (λ _.
        replied-IfOpened mac4 challenge rounds cv r replies (decode_cmd04 mac4 r) next refl
          (λ v. activate-Activated rounds publishes (n + 1) mac4 challenge v replies))
