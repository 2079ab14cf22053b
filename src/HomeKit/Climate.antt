-- ===== src/HomeKit/Climate.antt =====
-- hkclimate.go: the air conditioner as a HomeKit tile with two switches.
--
-- Temperatures and percentages are floats in the program. Here they are counted in ninetieths, which hold
-- whole and tenth degrees and every Fahrenheit degree in Celsius exactly; the rounding of floats is not
-- modelled. A controller writes only the states that the HomeKit library knows.
pub mod Degrees
pub mod Writes
pub mod Readings
pub mod Shown
pub mod Steady
mod Examples
use camonitor.Prelude.{
  ℕ, ◌+◌, ◌*◌, ◌/◌, Bool, true, false, not, ◌&&◌, ◌||◌, List, [], ◌∷◌, Option, none, some,
  if◌then◌else◌, suc, ℤ, pos, negsuc, ◌+ℤ◌, ◌-ℤ◌, scale, sub_ℕ, eq_ℤ, ltb_ℤ, Text, codes, Map,
}
use camonitor.Gree.{GreeStatus}
use camonitor.Gree.Unit.{SetError}

abbrev pub gree_mode_auto : ℤ
gree_mode_auto = pos 0

abbrev pub gree_mode_cool : ℤ
gree_mode_cool = pos 1

abbrev pub gree_mode_dry : ℤ
gree_mode_dry = pos 2

abbrev pub gree_mode_fan : ℤ
gree_mode_fan = pos 3

abbrev pub gree_mode_heat : ℤ
gree_mode_heat = pos 4

abbrev pub gree_swing_full : ℤ
gree_swing_full = pos 1

-- Ninetieths of a degree or of a percent.
abbrev pub Ninetieths : Type 0
Ninetieths = ℤ

-- `math.Round(a / d)`: halves go away from zero.
unfoldable pub round_div : ℕ → ℤ → ℤ
round_div d (pos n) = pos ((2 * n + d) / (2 * d))
round_div d (negsuc n) = sub_ℕ 0 ((2 * suc n + d) / (2 * d))

unfoldable pub celsius : ℤ → ℤ → Ninetieths
celsius t temp_unit = if eq_ℤ temp_unit (pos 1) then scale 50 (t -ℤ pos 32) else scale 90 t

unfoldable pub gree_temp : Ninetieths → ℤ → ℤ
unfolding round_div
gree_temp c temp_unit =
    if eq_ℤ temp_unit (pos 1) then round_div 50 (c +ℤ pos (32 * 50)) else round_div 90 c

pub data CurrentState : Type 0 where
  inactive idle heating cooling : CurrentState

pub data TargetState : Type 0 where
  to_auto to_heat to_cool : TargetState

pub record ClimateView : Type 0 where
  pub active : Bool
  pub current_state : CurrentState
  pub target_state : TargetState
  pub current_temperature : Ninetieths
  pub target_temperature : Ninetieths
  pub rotation_speed : Ninetieths
  pub swing_mode : Bool
  pub fahrenheit : Bool
  pub dry_on : Bool
  pub fan_only_on : Bool

unfoldable pub homekit_target_state : ℤ → TargetState → TargetState
homekit_target_state mode last_target =
    if eq_ℤ mode gree_mode_cool
    then to_cool
    else if eq_ℤ mode gree_mode_heat
    then to_heat
    else if eq_ℤ mode gree_mode_auto
    then to_auto
    else last_target

unfoldable pub gree_mode_for_target_state : TargetState → ℤ
gree_mode_for_target_state to_heat = gree_mode_heat
gree_mode_for_target_state to_cool = gree_mode_cool
gree_mode_for_target_state to_auto = gree_mode_auto

unfoldable pub auto_heater_cooler_state : GreeStatus → CurrentState
auto_heater_cooler_state st =
    if eq_ℤ st.room_temp (pos 0) || eq_ℤ st.room_temp st.set_temp
    then idle
    else if ltb_ℤ st.set_temp st.room_temp
    then cooling
    else heating

unfoldable pub current_heater_cooler_state : GreeStatus → CurrentState
unfolding auto_heater_cooler_state
current_heater_cooler_state st =
    if eq_ℤ st.mode gree_mode_cool
    then cooling
    else if eq_ℤ st.mode gree_mode_heat
    then heating
    else if eq_ℤ st.mode gree_mode_auto
    then auto_heater_cooler_state st
    else idle

unfoldable pub rotation_speed_for_fan : ℤ → Ninetieths
rotation_speed_for_fan fan = scale 1800 fan

-- `math.Min(math.Max(pct, 0), 100)`
abbrev clamp_percent : Ninetieths → Ninetieths
clamp_percent pct =
    if ltb_ℤ pct (pos 0) then pos 0 else if ltb_ℤ (pos 9000) pct then pos 9000 else pct

unfoldable pub fan_for_rotation_speed : Ninetieths → ℤ
unfolding round_div
fan_for_rotation_speed pct = round_div 1800 (clamp_percent pct)

unfoldable pub climate_view_of : GreeStatus → TargetState → ClimateView
unfolding homekit_target_state celsius rotation_speed_for_fan current_heater_cooler_state
climate_view_of st last_target =
    let powered : Bool = eq_ℤ st.power (pos 1) in
    record {
      active = powered;
      current_state = if powered then current_heater_cooler_state st else inactive;
      target_state = homekit_target_state st.mode last_target;
      current_temperature =
          celsius (if eq_ℤ st.room_temp (pos 0) then st.set_temp else st.room_temp) st.temp_unit;
      target_temperature = celsius st.set_temp st.temp_unit;
      rotation_speed = rotation_speed_for_fan st.fan_speed;
      swing_mode = eq_ℤ st.swing_v gree_swing_full;
      fahrenheit = eq_ℤ st.temp_unit (pos 1);
      dry_on = powered && eq_ℤ st.mode gree_mode_dry;
      fan_only_on = powered && eq_ℤ st.mode gree_mode_fan;
    }

-- The characteristics as they were set last, and the choice that the switches return to.
pub record HkClimate : Type 0 where
  pub view : ClimateView
  pub last_target : TargetState

unfoldable pub update : GreeStatus → HkClimate → HkClimate
unfolding climate_view_of
update st c = if not st.online then c else record {
  view = climate_view_of st c.last_target;
  last_target = (climate_view_of st c.last_target).target_state;
}

-- `blank` is what the library's characteristics hold at first.
unfoldable pub new_hk_climate : ClimateView → GreeStatus → HkClimate
unfolding update
new_hk_climate blank st = update st (record { view = blank; last_target = to_cool })

-- What a controller writes.
pub data Write : Type 0 where
  write_active : Bool → Write
  write_target : TargetState → Write
  write_temperature : Ninetieths → Write
  write_speed : Ninetieths → Write
  write_swing : Bool → Write
  write_dry : Bool → Write
  write_fan_only : Bool → Write

abbrev mode_switch : Bool → ℤ → TargetState → Map ℤ
mode_switch false mode last_target = (codes "mode", gree_mode_for_target_state last_target) ∷ []
mode_switch true mode last_target = (codes "power", pos 1) ∷ (codes "mode", mode) ∷ []

-- The parameters of a write, for a unit in a scale and for the choice that was made last.
unfoldable pub write_params : Write → ℤ → TargetState → Map ℤ
unfolding gree_mode_for_target_state gree_temp fan_for_rotation_speed
write_params (write_active on) temp_unit last_target =
    (codes "power", if on then pos 1 else pos 0) ∷ []
write_params (write_target t) temp_unit last_target =
    (codes "power", pos 1) ∷ (codes "mode", gree_mode_for_target_state t) ∷ []
write_params (write_temperature c) temp_unit last_target =
    (codes "temp", gree_temp c temp_unit) ∷ []
write_params (write_speed pct) temp_unit last_target =
    (codes "fan", fan_for_rotation_speed pct) ∷ []
write_params (write_swing on) temp_unit last_target =
    (codes "swing_v", if on then gree_swing_full else pos 0) ∷ []
write_params (write_dry on) temp_unit last_target = mode_switch on gree_mode_dry last_target
write_params (write_fan_only on) temp_unit last_target = mode_switch on gree_mode_fan last_target

-- A written target is kept as the last choice before the unit is told.
abbrev target_after : Write → TargetState → TargetState
target_after (write_active on) last_target = last_target
target_after (write_target t) last_target = t
target_after (write_temperature c) last_target = last_target
target_after (write_speed pct) last_target = last_target
target_after (write_swing on) last_target = last_target
target_after (write_dry on) last_target = last_target
target_after (write_fan_only on) last_target = last_target

-- The part of the unit's controller that the tile uses: its last status, and a command with the status
-- after it.
pub record GreeDevice : Type 0 where
  pub status : GreeStatus
  pub set : Map ℤ → Option SetError × GreeStatus

settle : Option SetError × GreeStatus → HkClimate → HkClimate × Option SetError
settle (some e, st) c = (c, some e)
settle (none, st) c = (update st c, none)

-- A write: the tile, and the error that the controller is told.
unfoldable pub write : GreeDevice → Write → HkClimate → HkClimate × Option SetError
unfolding settle write_params
write d w c =
    let chosen = record c { last_target = target_after w c.last_target } in
    settle (d.set (write_params w d.status.temp_unit c.last_target)) chosen
