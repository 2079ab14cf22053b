-- ===== src/HomeKit/Climate/Readings.antt =====
-- hkclimate.go with gree.go: the tile of a unit that obeys, read after a write.
use camonitor.Prelude.{
  ℕ, ◌≤◌, ◌≡◌, refl, ap, Bool, true, false, List, Option, none, some, arith, ℤ, pos, Text, codes,
  text_eq, Map, lookup, if◌then◌else◌,
}
use camonitor.Clock.{Time}
use camonitor.Gree.{GreeStatus, gree_column_for}
use camonitor.Gree.Unit.{translate, SetError, status_of}
use camonitor.Gree.Unit.Readings.{UnitState, told, reading, shown, given, shown-set}
use camonitor.HomeKit.Climate.{
  celsius, rotation_speed_for_fan, TargetState, to_auto, to_heat, to_cool, ClimateView,
  climate_view_of, homekit_target_state, HkClimate, GreeDevice, Write, write_active, write_target,
  write_temperature, write_speed, write_swing, write_dry, write_fan_only, write_params, write,
  settle, update, target_after, gree_mode_for_target_state, gree_mode_dry, gree_mode_fan,
}

-- A device whose unit takes every command that can be translated, and answers the read that follows.
abbrev pub Obeys : GreeDevice → UnitState → Time → Type 0
Obeys d unit now =
    (params : Map ℤ) (opt : List Text) (p : List ℤ)
    → translate params ≡ some (opt, p)
    → d.set params ≡ (none, reading (told opt p unit) now)

-- Writes that the unit can follow to the letter: set points on its scale, speeds that it has.
abbrev pub Fits : Write → ℤ → Type 0
Fits (write_active on) temp_unit = Unit {0}
Fits (write_target t) temp_unit = Unit {0}
Fits (write_temperature v) temp_unit = (t : ℤ) × (v ≡ celsius t temp_unit)
Fits (write_speed pct) temp_unit = (n : ℕ) × (n ≤ 5) × (pct ≡ rotation_speed_for_fan (pos n))
Fits (write_swing on) temp_unit = ⊥
Fits (write_dry on) temp_unit = Unit {0}
Fits (write_fan_only on) temp_unit = Unit {0}

-- A switch that is on, on a unit that is on; or the tile back at the choice that was made last.
abbrev pub Switched : Bool → Bool → ClimateView → TargetState → Type 0
Switched true shown_on v last_target = (v.active ≡ true) × (shown_on ≡ true)
Switched false shown_on v last_target = (shown_on ≡ false) × (v.target_state ≡ last_target)

abbrev pub Shows : Write → TargetState → ClimateView → Type 0
Shows (write_active on) last_target v = v.active ≡ on
Shows (write_target t) last_target v = (v.active ≡ true) × (v.target_state ≡ t)
Shows (write_temperature c) last_target v = v.target_temperature ≡ c
Shows (write_speed pct) last_target v = v.rotation_speed ≡ pct
Shows (write_swing on) last_target v = v.swing_mode ≡ on
Shows (write_dry on) last_target v = Switched on v.dry_on v last_target
Shows (write_fan_only on) last_target v = Switched on v.fan_only_on v last_target

module _ (st : GreeStatus) (l : TargetState) where
  pub power_shows :
      (on : Bool) → st.power ≡ (if on then pos 1 else pos 0) → (climate_view_of st l).active ≡ on
  unfolding climate_view_of
  power_shows true e = rw e refl
  power_shows false e = rw e refl

  pub target_shows :
      (t : TargetState)
      → st.mode ≡ gree_mode_for_target_state t
      → ((climate_view_of st l).target_state ≡ t)
        × ((climate_view_of st l).dry_on ≡ false)
        × ((climate_view_of st l).fan_only_on ≡ false)
  unfolding climate_view_of homekit_target_state gree_mode_for_target_state
  target_shows to_auto e = ground arith
  target_shows to_heat e = ground arith
  target_shows to_cool e = ground arith

  pub dry_shows : st.power ≡ pos 1 → st.mode ≡ gree_mode_dry → (climate_view_of st l).dry_on ≡ true
  unfolding climate_view_of
  dry_shows p m = rw (p, m) refl

  pub fan_shows :
      st.power ≡ pos 1 → st.mode ≡ gree_mode_fan → (climate_view_of st l).fan_only_on ≡ true
  unfolding climate_view_of
  fan_shows p m = rw (p, m) refl

module _ (d : GreeDevice) (unit : UnitState) (now : Time) (obeys : Obeys d unit now) where
  -- The tile after a write whose parameters are known.
  told_view :
      (w : Write) (c : HkClimate) (opt : List Text) (p : List ℤ)
      → translate (write_params w d.status.temp_unit c.last_target) ≡ some (opt, p)
      → write d w c ≡ (
        update
            (reading (told opt p unit) now)
            (record c { last_target = target_after w c.last_target }),
        none,
      )
  unfolding write settle
  told_view w c opt p t =
      ap (λ r. settle r (record c { last_target = target_after w c.last_target })) (obeys _ opt p t)

  pub after_view :
      (w : Write) (c : HkClimate) (opt : List Text) (p : List ℤ)
      → translate (write_params w d.status.temp_unit c.last_target) ≡ some (opt, p)
      → (write d w c).0.view
        ≡ climate_view_of (reading (told opt p unit) now) (target_after w c.last_target)
  unfolding update reading status_of
  after_view w c opt p t =
      ap (λ (r : HkClimate × Option SetError). r.0.view) (told_view w c opt p t)

module _ (unit : UnitState) (now : Time) (params : Map ℤ) (opt : List Text) (p : List ℤ)
    (t : translate params ≡ some (opt, p)) where
  pub power_told :
      (reading (told opt p unit) now).power
      ≡ given (lookup (codes "power") params) (unit (codes "Pow"))
  unfolding shown text_eq
  power_told =
      shown-set params unit opt p (codes "power") (codes "Pow") now
        (unfold gree_column_for lookup in refl) t

  pub mode_told :
      (reading (told opt p unit) now).mode
      ≡ given (lookup (codes "mode") params) (unit (codes "Mod"))
  unfolding shown text_eq
  mode_told =
      shown-set params unit opt p (codes "mode") (codes "Mod") now
        (unfold gree_column_for lookup in refl) t

  pub temp_told :
      (reading (told opt p unit) now).set_temp
      ≡ given (lookup (codes "temp") params) (unit (codes "SetTem"))
  unfolding shown text_eq
  temp_told =
      shown-set params unit opt p (codes "temp") (codes "SetTem") now
        (unfold gree_column_for lookup in refl) t

  pub fan_told :
      (reading (told opt p unit) now).fan_speed
      ≡ given (lookup (codes "fan") params) (unit (codes "WdSpd"))
  unfolding shown text_eq
  fan_told =
      shown-set params unit opt p (codes "fan") (codes "WdSpd") now
        (unfold gree_column_for lookup in refl) t

  pub scale_told :
      (reading (told opt p unit) now).temp_unit
      ≡ given (lookup (codes "temp_unit") params) (unit (codes "TemUn"))
  unfolding shown text_eq
  scale_told =
      shown-set params unit opt p (codes "temp_unit") (codes "TemUn") now
        (unfold gree_column_for lookup in refl) t
