-- ===== src/Gate/Controller/Completes.antt =====
-- centsys.go: an operator that keeps to the protocol opens the gate.
use camonitor.Prelude.{
  ℕ, zero, suc, ◌+◌, ◌≤◌, ◌≡◌, ◌≢◌, ◌∙◌, refl, ap, Bool, true, false, not, List, [], ◌∷◌, some,
  arith, ltb, ◌==◌, if◌then◌else◌, length, drop, map, Text,
}
use camonitor.Gate.{Civil}
use camonitor.Gate.Controller.{
  CentsysController, OpenResult, opened, Broker, Published, activate, replied, last_four,
  challenged, first_reply, woken, connected, centsys_open,
}
use camonitor.Gate.Controller.Opened.{Opens}
use camonitor.Gate.Controller.Rounds.{Agreed, accepted, told, cmd03}

goes_on : {A : Type 0} (b : Bool) (x y : A) → b ≡ true → (if not b then x else y) ≡ y
goes_on true x y h = refl
goes_on false x y h = absurd (cc)

replied-accepted :
    (packet : Text) (cv gate_cv : ℕ) (next : ℕ → OpenResult × List Text)
    → replied packet cv (some (1, gate_cv)) next ≡ (opened, packet ∷ [])
replied-accepted packet cv gate_cv next = refl

replied-told :
    (packet : Text) (cv gate_cv : ℕ) (next : ℕ → OpenResult × List Text)
    → gate_cv ≢ cv
    → replied packet cv (some (7, gate_cv)) next ≡ ((next gate_cv).0, packet ∷ (next gate_cv).1)
replied-told packet cv gate_cv next h =
    let other : gate_cv == cv ≡ false = ground arith in rw other refl

activate-Agreed :
    (rounds : ℕ) (publishes : ℕ → Bool) (n : ℕ) (mac4 challenge : Text) (cv : ℕ)
    (replies : List Text) (cvs : List ℕ)
    → ((k : ℕ) → publishes k ≡ true)
    → length cvs ≤ rounds
    → Agreed mac4 cv replies cvs
    → activate rounds publishes n mac4 challenge cv replies
      ≡ (opened, map (cmd03 mac4 challenge) cvs)
unfolding activate
activate-Agreed zero publishes n mac4 challenge cv _ _ all few (accepted _ gate_cv r rs e) =
    absurd (omega arith)
activate-Agreed zero publishes n mac4 challenge cv _ _ all few (told _ gate_cv r rs cvs e apart a) =
    absurd (omega arith)
activate-Agreed (suc rounds) publishes n mac4 challenge cv _ _ all few (accepted _ gate_cv r rs e) =
    goes_on (publishes n) _ _ (all n)
    ∙ ap
        (λ o.
          replied (cmd03 mac4 challenge cv) cv o
            (λ v. activate rounds publishes (n + 1) mac4 challenge v rs))
        e
activate-Agreed (suc rounds) publishes n mac4 challenge cv _ _ all few
      (told _ gate_cv r rs cvs e apart a) =
    let next : ℕ → OpenResult × List Text =
      (λ v. activate rounds publishes (n + 1) mac4 challenge v rs) in
    goes_on (publishes n) _ _ (all n)
    ∙ ap (λ o. replied (cmd03 mac4 challenge cv) cv o next) e
    ∙ replied-told (cmd03 mac4 challenge cv) cv gate_cv next apart
    ∙ ap (λ r. (r.0, cmd03 mac4 challenge cv ∷ r.1))
        (activate-Agreed rounds publishes (n + 1) mac4 challenge gate_cv rs cvs all (omega arith) a)

-- An operator that answers the wake, gives a challenge of four bytes or more, and accepts one of the first
-- two versions that it is named, the second being the one that it asked for, opens the gate, whatever it
-- answers to the clock, when every publication gets through.
pub centsys_open-completes :
    (b : Broker) (now : Civil) (c : CentsysController) (ps : Published)
    → ((k : ℕ) → b.publishes k ≡ true)
    → Opens b now c ps
    → centsys_open b now c ≡ (opened, ps)
unfolding centsys_open connected woken first_reply challenged
centsys_open-completes b now c ps all
      (cr, cmd02, replies, cvs, e, up, awake, t, long, agreed, few, said) =
    let enough : ltb (length cmd02) 4 ≡ false = ground arith in
    let active : activate 2 b.publishes 3 cr.mac4 (last_four cmd02) 0 (drop 1 replies)
        ≡ (opened, map (cmd03 cr.mac4 (last_four cmd02)) cvs) =
      activate-Agreed 2 b.publishes 3 cr.mac4 (last_four cmd02) 0 (drop 1 replies) cvs all few
        agreed in
    rw (e, up, all 0, awake, all 1, t, enough, all 2, active, said) refl
