-- ===== src/HomeKit/GarageDoor/Telemetry.antt =====
-- hkgate.go, centsys.go: the tile, told of the operator's reports by the controller's callback.
use camonitor.Prelude.{
  ℕ, ◌≡◌, ◌≢◌, ◌∙◌, ◌⊎◌, refl, sym, ap, Bool, true, false, not, inl, inr, List, [], ◌∷◌, ◌++◌,
  arith, ◌==◌, if◌then◌else◌, All, Option, none, some, Text,
}
use camonitor.Gate.{
  GateStatus, gate_open, gate_closed, gate_opening, gate_closing, gate_stopped, gate_unknown,
  decode_overview,
}
use camonitor.Gate.Controller.{
  CentsysCreds, CentsysController, new_centsys_controller, reload, rank, same_status, known_status,
  set_status,
}
use camonitor.HomeKit.GarageDoor.{
  TargetState, HkGate, new_hk_gate, apply, motion, set_target, Event, reports, step, run,
}

-- The controller and its tile.
pub record Tiled : Type 0 where
  pub gate : CentsysController
  pub tile : HkGate

-- What happens to the two: a session that is loaded again, a packet of telemetry, a write with the
-- gate's answer, the library's setting of the target.
pub data Happening : Type 0 where
  packet : Text → Happening
  signs_in : Option CentsysCreds → Happening
  writes : Bool → TargetState → Happening
  retargets : TargetState → Happening

abbrev pub updated : CentsysController × HkGate → Tiled
updated r = record { gate = r.0; tile = r.1 }

unfoldable pub happen : Tiled → Happening → Tiled
unfolding set_status set_target reload
happen s (packet p) = updated (set_status apply (decode_overview p) s.gate s.tile)
happen s (signs_in loaded) = record s { gate = reload loaded s.gate }
happen s (writes accepted t) = record s { tile = (set_target accepted t s.tile).1 }
happen s (retargets t) = record s { tile = step s.tile (Event.retargets t) }

unfoldable pub happen_all : Tiled → List Happening → Tiled
unfolding happen
happen_all s [] = s
happen_all s (h ∷ hs) = happen_all (happen s h) hs

abbrev of_rank : ℕ → GateStatus
of_rank n =
    if n == 0
    then gate_open
    else if n == 1
    then gate_closed
    else if n == 2
    then gate_opening
    else if n == 3
    then gate_closing
    else if n == 4
    then gate_stopped
    else gate_unknown

of_rank-rank : (s : GateStatus) → of_rank (rank s) ≡ s
of_rank-rank gate_open = refl
of_rank-rank gate_closed = refl
of_rank-rank gate_opening = refl
of_rank-rank gate_closing = refl
of_rank-rank gate_stopped = refl
of_rank-rank gate_unknown = refl

same_status-true : (s t : GateStatus) → same_status s t ≡ true → s ≡ t
same_status-true s t h =
    let same : rank s ≡ rank t = ground arith in
    sym (of_rank-rank s) ∙ ap of_rank same ∙ of_rank-rank t

apply_twice : (s : GateStatus) (g : HkGate) → apply s (apply s g) ≡ apply s g
unfolding apply
apply_twice gate_open g = refl
apply_twice gate_closed g = refl
apply_twice gate_opening g = refl
apply_twice gate_closing g = refl
apply_twice gate_stopped g = refl
apply_twice gate_unknown g = refl

-- The tile shows the controller's state.
abbrev pub Agree : Tiled → Type 0
Agree s = apply s.gate.status s.tile ≡ s.tile

-- The events of the tile, were it told of every report.
abbrev pub told : Happening → List Event
told (packet p) = reports (decode_overview p) ∷ []
told (signs_in loaded) = []
told (writes accepted t) = Event.writes accepted t ∷ []
told (retargets t) = Event.retargets t ∷ []

abbrev pub told_all : List Happening → List Event
told_all [] = []
told_all (h ∷ hs) = told h ++ told_all hs

-- Nothing that the tile shows without the operator having said it.
abbrev pub IsQuiet : Happening → Type 0
IsQuiet (packet p) = Unit {0}
IsQuiet (signs_in loaded) = Unit {0}
IsQuiet (writes accepted t) = accepted ≡ false
IsQuiet (retargets t) = ⊥

abbrev Shown : Tiled → GateStatus → Tiled → Type 0
Shown s st r = Agree r × (r.tile ≡ apply st s.tile)

changed_or_kept :
    (st : GateStatus) (s : Tiled) (b : Bool)
    → Agree s
    → same_status s.gate.status st ≡ b
    → Shown s st
        (updated (record (s.gate) { status = st }, if not b then apply st s.tile else s.tile))
changed_or_kept st s true a e =
    let same : st ≡ s.gate.status = sym (same_status-true s.gate.status st e) in
    let kept : apply st s.tile ≡ s.tile = ap (λ t. apply t s.tile) same ∙ a in (kept, sym kept)
changed_or_kept st s false a e = (apply_twice st s.tile, refl)

packet-Shown :
    (st : GateStatus) (s : Tiled) (b : Bool)
    → Agree s
    → same_status st gate_unknown ≡ b
    → Shown s st (updated (if b then (s.gate, s.tile) else known_status apply st s.gate s.tile))
unfolding apply
packet-Shown st s true a e =
    let unknown : st ≡ gate_unknown = same_status-true st gate_unknown e in
    (a, ap (λ t. apply t s.tile) (sym unknown))
packet-Shown st s false a e = changed_or_kept st s (same_status s.gate.status st) a refl

happen-quiet :
    (s : Tiled) (h : Happening)
    → IsQuiet h
    → Agree s
    → Agree (happen s h) × ((happen s h).tile ≡ run s.tile (told h))
unfolding happen set_status step run set_target reload
happen-quiet s (packet p) q a =
    packet-Shown (decode_overview p) s (same_status (decode_overview p) gate_unknown) a refl
happen-quiet s (signs_in none) q a = (a, refl)
happen-quiet s (signs_in (some cr)) q a = (a, refl)
happen-quiet s (writes true t) q a = absurd (cc)
happen-quiet s (writes false t) q a = (a, refl)
happen-quiet s (retargets t) q a = absurd q

run-append : (g : HkGate) (es fs : List Event) → run g (es ++ fs) ≡ run (run g es) fs
unfolding run
run-append g [] fs = refl
run-append g (e ∷ es) fs = run-append (step g e) es fs

all_quiet :
    (s : Tiled) (hs : List Happening)
    → All IsQuiet hs
    → Agree s
    → Agree (happen_all s hs) × ((happen_all s hs).tile ≡ run s.tile (told_all hs))
unfolding happen_all run
all_quiet s [] q a = (a, refl)
all_quiet s (h ∷ hs) (q, qs) a =
    let (b, same) = happen-quiet s h q a in
    let (c, rest) = all_quiet (happen s h) hs qs b in
    (c, rest ∙ ap (λ g. run g (told_all hs)) same ∙ sym (run-append s.tile (told h) (told_all hs)))

-- When the program starts: whatever session is loaded.
abbrev pub tiled_at_start : Option CentsysCreds → Tiled
tiled_at_start loaded = record {
  gate = new_centsys_controller loaded;
  tile = new_hk_gate (new_centsys_controller loaded).status;
}

-- From the start, as long as the gate accepts no command from HomeKit and no controller sets the target, the
-- tile is what it would be if it were told of every report, though the controller tells it of changes
-- only, and it shows the controller's state.
pub happen_all-tells :
    (loaded : Option CentsysCreds) (hs : List Happening)
    → All IsQuiet hs
    → Agree (happen_all (tiled_at_start loaded) hs)
      × ((happen_all (tiled_at_start loaded) hs).tile
          ≡ run (new_hk_gate gate_unknown) (told_all hs))
unfolding new_centsys_controller new_hk_gate apply
happen_all-tells loaded hs q = all_quiet (tiled_at_start loaded) hs q refl

-- A packet of telemetry that reports the state that the controller knows, or nothing.
abbrev pub Repeats : GateStatus → Happening → Type 0
Repeats st (packet p) = (decode_overview p ≡ st) ⊎ (decode_overview p ≡ gate_unknown)
Repeats st (signs_in loaded) = ⊥
Repeats st (writes accepted t) = ⊥
Repeats st (retargets t) = ⊥

same_status_refl : (s : GateStatus) → same_status s s ≡ true
same_status_refl gate_open = refl
same_status_refl gate_closed = refl
same_status_refl gate_opening = refl
same_status_refl gate_closing = refl
same_status_refl gate_stopped = refl
same_status_refl gate_unknown = refl

set_status_same :
    (b : Bool) (c : CentsysController) (g : HkGate)
    → (if b then (c, g) else known_status apply c.status c g) ≡ (c, g)
set_status_same true c g = refl
set_status_same false c g =
    ap (λ b. (c, if not b then apply c.status g else g)) (same_status_refl c.status)

happen-Repeats : (s : Tiled) (h : Happening) → Repeats s.gate.status h → happen s h ≡ s
unfolding happen set_status
happen-Repeats s (packet p) (inl e) =
    ap (λ t. updated (set_status apply t s.gate s.tile)) e
    ∙ ap updated (set_status_same (same_status s.gate.status gate_unknown) s.gate s.tile)
happen-Repeats s (packet p) (inr e) = ap (λ t. updated (set_status apply t s.gate s.tile)) e
happen-Repeats s (signs_in loaded) r = absurd r
happen-Repeats s (writes accepted t) r = absurd r
happen-Repeats s (retargets t) r = absurd r

happen_all-Repeats :
    (s : Tiled) (hs : List Happening) → All (Repeats s.gate.status) hs → happen_all s hs ≡ s
unfolding happen_all
happen_all-Repeats s [] r = refl
happen_all-Repeats s (h ∷ hs) (r, rs) =
    ap (λ t. happen_all t hs) (happen-Repeats s h r) ∙ happen_all-Repeats s hs rs

shows_only :
    (st : GateStatus) (g h : HkGate)
    → st ≢ gate_unknown
    → (apply st g).current ≡ (apply st h).current
unfolding apply
shows_only gate_open g h k = refl
shows_only gate_closed g h k = refl
shows_only gate_opening g h k = refl
shows_only gate_closing g h k = refl
shows_only gate_stopped g h k = refl
shows_only gate_unknown g h k = absurd (k refl)

-- A tile that shows the controller's state, which is not unknown, shows the door moving after a command
-- that the gate accepts, and goes on showing it for as long as the operator reports the state that the
-- controller knew before, however often it does. Such a report would put the tile right if the
-- controller passed it on.
pub reports_withheld :
    (s : Tiled) (t : TargetState) (hs : List Happening)
    → Agree s
    → s.gate.status ≢ gate_unknown
    → All (Repeats s.gate.status) hs
    → ((happen_all (happen s (writes true t)) hs).tile.current ≡ motion t)
      × ((apply s.gate.status (happen_all (happen s (writes true t)) hs).tile).current
          ≡ s.tile.current)
unfolding happen set_target
reports_withheld s t hs a known r = (
  ap (λ u. u.tile.current) (happen_all-Repeats (happen s (writes true t)) hs r),
  shows_only s.gate.status (happen_all (happen s (writes true t)) hs).tile s.tile known
      ∙ ap (λ g. g.current) a,
)
