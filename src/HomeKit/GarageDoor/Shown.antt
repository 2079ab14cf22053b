-- ===== src/HomeKit/GarageDoor/Shown.antt =====
-- hkgate.go: what the tile shows.
use camonitor.Prelude.{◌≡◌, ◌∙◌, refl, ap, true, false, List, [], ◌∷◌, Option, none, some}
use camonitor.Gate.{gate_open, gate_closed, gate_opening, gate_closing, gate_stopped, gate_unknown}
use camonitor.HomeKit.GarageDoor.{
  DoorState, door_open, door_closed, door_opening, door_closing, door_stopped, HkGate, apply,
  motion, set_target, Event, reports, writes, retargets, step, run,
}

-- What one event says of the door.
abbrev pub says : Event → Option DoorState
says (reports gate_open) = some door_open
says (reports gate_closed) = some door_closed
says (reports gate_opening) = some door_opening
says (reports gate_closing) = some door_closing
says (reports gate_stopped) = some door_stopped
says (reports gate_unknown) = none
says (writes true t) = some (motion t)
says (writes false t) = none
says (retargets t) = none

abbrev or_older : Option DoorState → Option DoorState → Option DoorState
or_older (some d) older = some d
or_older none older = older

-- What the last event that says anything says.
abbrev pub last_said : List Event → Option DoorState
last_said [] = none
last_said (e ∷ es) = or_older (last_said es) (says e)

abbrev pub or_state : Option DoorState → DoorState → DoorState
or_state (some d) s = d
or_state none s = s

current-step : (g : HkGate) (e : Event) → (step g e).current ≡ or_state (says e) g.current
unfolding step apply set_target
current-step g (reports gate_open) = refl
current-step g (reports gate_closed) = refl
current-step g (reports gate_opening) = refl
current-step g (reports gate_closing) = refl
current-step g (reports gate_stopped) = refl
current-step g (reports gate_unknown) = refl
current-step g (writes true t) = refl
current-step g (writes false t) = refl
current-step g (retargets t) = refl

or_state-or_older :
    (newer older : Option DoorState) (s : DoorState)
    → or_state newer (or_state older s) ≡ or_state (or_older newer older) s
or_state-or_older (some d) older s = refl
or_state-or_older none older s = refl

-- The tile shows what was last said: the state of the last report that is not unknown or the motion of
-- the last command that the gate accepted, whichever came later, and what it showed before where there
-- is neither. Refused commands and the controllers' targets change nothing of it.
pub current-run :
    (g : HkGate) (es : List Event) → (run g es).current ≡ or_state (last_said es) g.current
unfolding run
current-run g [] = refl
current-run g (e ∷ es) =
    current-run (step g e) es
    ∙ ap (or_state (last_said es)) (current-step g e)
    ∙ or_state-or_older (last_said es) (says e) g.current
