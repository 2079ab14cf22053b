-- ===== src/HomeKit/GarageDoor.antt =====
-- hkgate.go: the garage door tile of the gate. It shows what the operator reports, and after a command
-- the motion that was asked for, until the next report.
--
-- The gate's answer to a command is an argument. The HomeKit library may set the target for a controller.
pub mod Shown
pub mod Telemetry
mod Examples
use camonitor.Prelude.{ℕ, Bool, true, false, List, [], ◌∷◌, Option, none, some}
use camonitor.Gate.{
  GateStatus, gate_open, gate_closed, gate_opening, gate_closing, gate_stopped, gate_unknown,
}

pub data DoorState : Type 0 where
  door_open door_closed door_opening door_closing door_stopped : DoorState

pub data TargetState : Type 0 where
  target_open target_closed : TargetState

pub record HkGate : Type 0 where
  pub current : DoorState
  pub target : TargetState

unfoldable pub apply : GateStatus → HkGate → HkGate
apply gate_open g = record { current = door_open; target = target_open }
apply gate_closed g = record { current = door_closed; target = target_closed }
apply gate_opening g = record { current = door_opening; target = target_open }
apply gate_closing g = record { current = door_closing; target = target_closed }
apply gate_stopped g = record g { current = door_stopped }
apply gate_unknown g = g

unfoldable pub new_hk_gate : GateStatus → HkGate
unfolding apply
new_hk_gate s = apply s (record { current = door_closed; target = target_closed })

abbrev pub motion : TargetState → DoorState
motion target_open = door_opening
motion target_closed = door_closing

-- Whether the write succeeds, and the tile.
unfoldable pub set_target : Bool → TargetState → HkGate → Bool × HkGate
set_target accepted t g = if_accepted accepted
  where
    if_accepted : Bool → Bool × HkGate
    if_accepted true = (true, record g { current = motion t })
    if_accepted false = (false, g)

-- What happens to the tile: a report, a write by a controller with the gate's answer, and the library's
-- setting of the target.
pub data Event : Type 0 where
  reports : GateStatus → Event
  writes : Bool → TargetState → Event
  retargets : TargetState → Event

unfoldable pub step : HkGate → Event → HkGate
unfolding apply set_target
step g (reports s) = apply s g
step g (writes accepted t) = (set_target accepted t g).1
step g (retargets t) = record g { target = t }

unfoldable pub run : HkGate → List Event → HkGate
unfolding step
run g [] = g
run g (e ∷ es) = run (step g e) es
