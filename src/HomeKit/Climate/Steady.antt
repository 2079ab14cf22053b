-- ===== src/HomeKit/Climate/Steady.antt =====
-- hkclimate.go: what holds of the tile after any polls and writes.
use camonitor.Prelude.{◌≡◌, ◌≢◌, true, false, List, [], ◌∷◌}
use camonitor.Gree.{GreeStatus}
use camonitor.HomeKit.Climate.{
  inactive, idle, ClimateView, HkClimate, GreeDevice, Write, write, update,
}

-- What happens to the tile: a poll, or a write with the device at that time.
pub data Event : Type 0 where
  polls : GreeStatus → Event
  writes : GreeDevice → Write → Event

unfoldable pub step : HkClimate → Event → HkClimate
step c (polls st) = update st c
step c (writes d w) = (write d w c).0

unfoldable pub run : HkClimate → List Event → HkClimate
unfolding step
run c [] = c
run c (e ∷ es) = run (step c e) es

pub record IsConsistent (v : ClimateView) : Type 0 where
  pub off : v.active ≡ false → v.current_state ≡ inactive
  pub on : v.active ≡ true → v.current_state ≢ inactive
  pub dry : v.dry_on ≡ true → (v.active ≡ true) × (v.current_state ≡ idle) × (v.fan_only_on ≡ false)
  pub fan : v.fan_only_on ≡ true → (v.active ≡ true) × (v.current_state ≡ idle) × (v.dry_on ≡ false)
