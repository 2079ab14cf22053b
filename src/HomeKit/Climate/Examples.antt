-- ===== src/HomeKit/Climate/Examples.antt =====
-- Tests of the climate tile, and its theorems at concrete inputs.
use camonitor.Prelude.{
  ℕ, ◌≡◌, refl, true, false, List, [], Option, none, some, arith, ℤ, pos, negsuc, ◌≤ℤ◌, ◌+ℤ◌, ◌-ℤ◌,
  scale, Text, codes, text_eq, if◌then◌else◌,
}
use camonitor.Gree.{GreeConfig, GreeStatus, zero_status}
use camonitor.Gree.Unit
use camonitor.Gree.Unit.{translate, SetError, unknown_parameter, no_parameters}
use camonitor.Gree.Unit.Readings.{UnitState, told, reading}
use camonitor.Gree.Controller
use camonitor.Gree.Controller.{GreeController, Poll}
use camonitor.Gree.Examples.{toy_aes, toy_json, answers}
use camonitor.HomeKit.Climate.{
  celsius, gree_temp, round_div, rotation_speed_for_fan, fan_for_rotation_speed, to_auto, to_heat,
  inactive, ClimateView, HkClimate, GreeDevice, write_swing, write, write_params, climate_view_of,
  homekit_target_state,
}
use camonitor.HomeKit.Climate.Degrees.{gree_temp-celsius, fan_bounds}
use camonitor.HomeKit.Climate.Writes.{controlled_by, swing_fails}

-- 75 °F is 23.8… °C, and minus 10.5 °C is rounded away from zero.
degrees :
    (celsius (pos 75) (pos 1) ≡ pos 2150)
    × (gree_temp (pos 2150) (pos 1) ≡ pos 75)
    × (gree_temp (negsuc 944) (pos 0) ≡ negsuc 10)
unfolding celsius gree_temp scale round_div ◌-ℤ◌ ◌+ℤ◌
degrees = (refl, refl, refl)

gree_temp-celsius_example : gree_temp (celsius (pos 75) (pos 1)) (pos 1) ≡ pos 75
gree_temp-celsius_example = gree_temp-celsius (pos 75) (pos 1)

fan_bounds_example :
    (pos 0 ≤ℤ fan_for_rotation_speed (pos 20000))
    × (fan_for_rotation_speed (pos 20000) ≤ℤ pos 5)
    × (fan_for_rotation_speed (rotation_speed_for_fan (pos 3)) ≡ pos 3)
fan_bounds_example = fan_bounds (pos 20000) 3 (omega arith)

abbrev blank : ClimateView
blank = record {
  active = false;
  current_state = inactive;
  target_state = to_auto;
  current_temperature = pos 0;
  target_temperature = pos 0;
  rotation_speed = pos 0;
  swing_mode = false;
  fahrenheit = false;
  dry_on = false;
  fan_only_on = false;
}

abbrev tile : HkClimate
tile = record { view = blank; last_target = to_heat }

abbrev unit_of : GreeConfig
unit_of = record { host = codes "10.0.0.7"; mac = []; port = 0; name = [] }

abbrev lost : Poll
lost = record { handshake = answers; reply = record { sent = false; turns = [] }; now = 9 }

abbrev controller : GreeController ℕ
controller = Controller.new_gree_controller unit_of

swing_fails_example :
    (Unit.set toy_json toy_aes answers
        (record { sent = true; turns = [] })
        (write_params (write_swing true) controller.status.temp_unit to_heat)
        controller.client
      ≡ (controller.client, some unknown_parameter, []))
    × (Controller.set toy_json toy_aes answers
          (record { sent = true; turns = [] })
          lost
          (write_params (write_swing true) controller.status.temp_unit to_heat)
          controller
          0
        ≡ (controller, 0, some unknown_parameter))
    × (write
          (controlled_by toy_json toy_aes answers
            (record { sent = true; turns = [] })
            lost
            controller
            0)
          (write_swing true)
          tile
        ≡ (tile, some unknown_parameter))
swing_fails_example =
    swing_fails toy_json toy_aes answers (record { sent = true; turns = [] }) lost true controller 0
      tile

abbrev warm_unit : UnitState
warm_unit k = if text_eq k (codes "TemUn") then pos 0 else pos 4

-- A device that obeys.
abbrev obey : Option (List Text × List ℤ) → Option SetError × GreeStatus
obey none = (some unknown_parameter, zero_status)
obey (some (opt, p)) = (none, reading (told opt p warm_unit) 7)

abbrev obedient : GreeDevice
obedient = record { status = zero_status; set = λ params. obey (translate params) }

abbrev dry_status : GreeStatus
dry_status = record zero_status { online = true; power = pos 1; mode = pos 2 }

dry_view :
    ((climate_view_of dry_status to_heat).dry_on ≡ true)
    × ((climate_view_of dry_status to_heat).target_state ≡ to_heat)
unfolding climate_view_of homekit_target_state
dry_view = (refl, refl)
