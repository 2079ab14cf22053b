-- ===== src/HomeKit/GarageDoor/Examples.antt =====
-- Tests of the gate's tile, and its theorem at a concrete run.
use camonitor.Prelude.{ℕ, ◌≡◌, refl, inl, true, false, List, [], ◌∷◌, ◌++◌, none, Text}
use camonitor.Gate.{gate_open, gate_closed, gate_unknown, decode_overview}
use camonitor.HomeKit.GarageDoor.{
  door_closing, target_open, target_closed, apply, motion, new_hk_gate, set_target, Event, reports,
  writes, retargets, step, run,
}
use camonitor.Gate.Controller.{new_centsys_controller}
use camonitor.HomeKit.GarageDoor.Telemetry.{
  Tiled, Happening, packet, tiled_at_start, happen, happen_all, told_all, Agree, happen_all-tells,
  reports_withheld,
}

tile_runs : Unit {0}
unfolding apply new_hk_gate set_target step run happen happen_all decode_overview
    new_centsys_controller
tile_runs = tt

abbrev evening : List Event
evening =
    reports gate_open
    ∷ retargets target_closed
    ∷ writes true target_closed
    ∷ writes false target_open
    ∷ reports gate_unknown
    ∷ []

shows_closing : (run (new_hk_gate gate_unknown) evening).current ≡ door_closing
unfolding tile_runs
shows_closing = refl

-- Three packets of telemetry: the gate is closed twice, and one that says nothing.
abbrev zeros : Text
zeros = 0 ∷ 0 ∷ 0 ∷ 0 ∷ 0 ∷ 0 ∷ 0 ∷ 0 ∷ []

abbrev says_byte : ℕ → Text
says_byte b = zeros ++ (zeros ++ (b ∷ 0 ∷ 0 ∷ 0 ∷ zeros))

abbrev night : List Happening
night =
    packet (says_byte 3)
    ∷ packet (says_byte 3)
    ∷ Happening.writes false target_open
    ∷ packet (says_byte 2)
    ∷ []

happen_all-tells_example :
    Agree (happen_all (tiled_at_start none) night)
    × ((happen_all (tiled_at_start none) night).tile
        ≡ run (new_hk_gate gate_unknown) (told_all night))
happen_all-tells_example = happen_all-tells none night (tt, (tt, (refl, (tt, tt))))

abbrev closed_gate : Tiled
closed_gate = record {
  gate = record { creds = none; status = gate_closed };
  tile = new_hk_gate gate_closed;
}

closed-decode : decode_overview (says_byte 3) ≡ gate_closed
unfolding tile_runs
closed-decode = refl

reports_withheld_example :
    ((happen_all
        (happen closed_gate (Happening.writes true target_open))
        (packet (says_byte 3) ∷ packet (says_byte 3) ∷ [])).tile.current
      ≡ motion target_open)
    × ((apply gate_closed
          (happen_all
            (happen closed_gate (Happening.writes true target_open))
            (packet (says_byte 3) ∷ packet (says_byte 3) ∷ [])).tile).current
        ≡ closed_gate.tile.current)
unfolding new_hk_gate apply
reports_withheld_example =
    reports_withheld closed_gate target_open (packet (says_byte 3) ∷ packet (says_byte 3) ∷ []) refl
      (λ e. absurd (cc)) (inl closed-decode, (inl closed-decode, tt))
