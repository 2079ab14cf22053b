-- ===== src/Gate/Controller/Opened.antt =====
-- centsys.go: when the gate opens, and what is then published.
use camonitor.Prelude.{
  ℕ, ◌≤◌, ◌≡◌, ◌∙◌, refl, ap, Bool, true, false, not, List, [], ◌∷◌, ◌++◌, Option, none, some,
  arith, ltb, if◌then◌else◌, length, drop, map, Text, codes,
}
use camonitor.Gate.{Civil, build_cmd01, build_cmd05}
use camonitor.Gate.Controller.{
  CentsysCreds, CentsysController, OpenResult, opened, publish_failed, no_challenge, offline,
  not_connected, Broker, Published, activate, trigger, topic, last_four, challenged, first_reply,
  woken, connected, with_creds, centsys_open,
}
use camonitor.Gate.Controller.Rounds.{Agreed, cmd03, IfOpened, unless-IfOpened, activate-Activated}

-- The publications of an exchange that opens, by the challenge and the versions that were named.
abbrev pub asked : CentsysCreds → Civil → Text → List ℕ → Published
asked cr now challenge cvs =
    trigger cr (build_cmd05 cr.mac4 now) ∷ map (trigger cr) (map (cmd03 cr.mac4 challenge) cvs)

abbrev Challenged : CentsysCreds → Civil → Text → List Text → Published → Type 0
Challenged cr now challenge replies ps =
    (cvs : List ℕ) × Agreed cr.mac4 0 (drop 1 replies) cvs
    × (length cvs ≤ 2)
    × (ps ≡ asked cr now challenge cvs)

challenged-IfOpened :
    (b : Broker) (cr : CentsysCreds) (now : Civil) (challenge : Text) (replies : List Text)
    → IfOpened (Challenged cr now challenge replies) (challenged b cr now challenge replies)
unfolding challenged
challenged-IfOpened b cr now challenge replies =
    let rounds : OpenResult × List Text =
      activate 2 b.publishes 3 cr.mac4 challenge 0 (drop 1 replies) in
    unless-IfOpened (Challenged cr now challenge replies) (not (b.publishes 2)) (publish_failed, [])
      (rounds.0, trigger cr (build_cmd05 cr.mac4 now) ∷ map (trigger cr) rounds.1)
      (λ _ h. absurd (cc))
      (λ _ h.
        let (cvs, agreed, few, sent) =
          activate-Activated 2 b.publishes 3 cr.mac4 challenge 0 (drop 1 replies) h in
        (
          cvs,
          agreed,
          few,
          ap (λ ts. trigger cr (build_cmd05 cr.mac4 now) ∷ map (trigger cr) ts) sent,
        ))

-- The operator's messages are a challenge, an answer to the clock, and the replies to the versions named;
-- `ps` follows the identity.
abbrev Exchanged : CentsysCreds → Civil → List Text → Published → Type 0
Exchanged cr now triggers ps =
    (cmd02 : Text) × (replies : List Text) × (triggers ≡ cmd02 ∷ replies)
    × (4 ≤ length cmd02)
    × Challenged cr now (last_four cmd02) replies ps

first_reply-IfOpened :
    (b : Broker) (cr : CentsysCreds) (now : Civil) (triggers : List Text)
    → IfOpened (Exchanged cr now triggers) (first_reply b cr now triggers)
unfolding first_reply
first_reply-IfOpened b cr now [] = λ h. absurd (cc)
first_reply-IfOpened b cr now (cmd02 ∷ replies) =
    unless-IfOpened (Exchanged cr now (cmd02 ∷ replies)) (ltb (length cmd02) 4) (no_challenge, [])
      (challenged b cr now (last_four cmd02) replies) (λ _ h. absurd (cc))
      (λ long h. (
        cmd02,
        replies,
        refl,
        ground arith,
        challenged-IfOpened b cr now (last_four cmd02) replies h,
      ))

-- The publications before the identity's answer, then the rest, then the farewell.
abbrev pub conversation : CentsysCreds → Civil → Text → List ℕ → Published
conversation cr now challenge cvs =
    (topic cr (codes "/connectionRequest"), [])
    ∷ trigger cr (build_cmd01 cr.phone cr.mac4)
    ∷ (asked cr now challenge cvs ++ (topic cr (codes "/disconnect"), []) ∷ [])

abbrev pub Opens : Broker → Civil → CentsysController → Published → Type 0
Opens b now c ps =
    (cr : CentsysCreds) × (cmd02 : Text) × (replies : List Text) × (cvs : List ℕ) × (c.creds
      ≡ some cr)
    × (b.connects ≡ true)
    × (b.wakes ≡ true)
    × (b.triggers ≡ cmd02 ∷ replies)
    × (4 ≤ length cmd02)
    × Agreed cr.mac4 0 (drop 1 replies) cvs
    × (length cvs ≤ 2)
    × (ps ≡ conversation cr now (last_four cmd02) cvs)

abbrev Woken : Broker → CentsysCreds → Civil → Published → Type 0
Woken b cr now ps =
    (b.wakes ≡ true)
    × (qs : Published) × Exchanged cr now b.triggers qs
    × (ps ≡ trigger cr (build_cmd01 cr.phone cr.mac4) ∷ qs)

true_if : (b : Bool) → not b ≡ false → b ≡ true
true_if true h = refl
true_if false h = absurd (cc)

woken-IfOpened :
    (b : Broker) (cr : CentsysCreds) (now : Civil) → IfOpened (Woken b cr now) (woken b cr now)
unfolding woken
woken-IfOpened b cr now =
    let after : OpenResult × Published = first_reply b cr now b.triggers in
    let told : OpenResult × Published =
      (after.0, trigger cr (build_cmd01 cr.phone cr.mac4) ∷ after.1) in
    unless-IfOpened (Woken b cr now) (not b.wakes) (offline, [])
      (if not (b.publishes 1) then (publish_failed, []) else told) (λ _ h. absurd (cc))
      (λ awake.
        unless-IfOpened (Woken b cr now) (not (b.publishes 1)) (publish_failed, []) told
          (λ _ h. absurd (cc))
          (λ _ h.
            (true_if b.wakes awake, after.1, first_reply-IfOpened b cr now b.triggers h, refl)))

abbrev Connected : Broker → CentsysCreds → Civil → Published → Type 0
Connected b cr now ps =
    (qs : Published) × Woken b cr now qs × (ps ≡ (topic cr (codes "/connectionRequest"), []) ∷ qs)

connected-IfOpened :
    (b : Broker) (cr : CentsysCreds) (now : Civil)
    → IfOpened (Connected b cr now) (connected b cr now)
unfolding connected
connected-IfOpened b cr now =
    let after : OpenResult × Published = woken b cr now in
    unless-IfOpened (Connected b cr now) (not (b.publishes 0)) (publish_failed, [])
      (after.0, (topic cr (codes "/connectionRequest"), []) ∷ after.1) (λ _ h. absurd (cc))
      (λ _ h. (after.1, woken-IfOpened b cr now h, refl))

with_creds-Opens :
    (b : Broker) (now : Civil) (c : CentsysController) (o : Option CentsysCreds)
    → c.creds ≡ o
    → IfOpened (Opens b now c) (with_creds b now o)
with_creds-Opens b now c none e = λ h. absurd (cc)
with_creds-Opens b now c (some cr) e =
    let after : OpenResult × Published = connected b cr now in
    unless-IfOpened (Opens b now c) (not b.connects) (not_connected, [])
      (after.0, after.1 ++ (topic cr (codes "/disconnect"), []) ∷ []) (λ _ h. absurd (cc))
      (λ up h.
        let (qs, (awake, rs, (cmd02, replies, t, long, (cvs, agreed, few, said)), f), g) =
          connected-IfOpened b cr now h in
        (
          cr,
          cmd02,
          replies,
          cvs,
          e,
          true_if b.connects up,
          awake,
          t,
          long,
          agreed,
          few,
          ap (λ ts. ts ++ (topic cr (codes "/disconnect"), []) ∷ [])
              (g
                ∙ ap (λ ts. (topic cr (codes "/connectionRequest"), []) ∷ ts)
                    (f ∙ ap (◌∷◌ (trigger cr (build_cmd01 cr.phone cr.mac4))) said)),
        ))

-- The gate is reported open only after the whole exchange: the operator answers the wake and gives a
-- challenge of four bytes or more; one or two versions are named to it, 0 first, each packet ending with
-- the last four bytes of the challenge; it answers a first one that it does not accept with a mismatch and
-- the version that is named next, and accepts the last. What was published is then the request for a
-- connection, the identity, the clock, these packets and the farewell, in that order.
pub centsys_open-Opens :
    (b : Broker) (now : Civil) (c : CentsysController)
    → (centsys_open b now c).0 ≡ opened
    → Opens b now c (centsys_open b now c).1
unfolding centsys_open
centsys_open-Opens b now c h = with_creds-Opens b now c c.creds refl h
