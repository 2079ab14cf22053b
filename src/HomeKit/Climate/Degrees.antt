-- ===== src/HomeKit/Climate/Degrees.antt =====
-- hkclimate.go: degrees and fan speeds there and back.
use camonitor.Prelude.{
  ℕ, ◌≤◌, ◌≡◌, inl, inr, arith, Bool-cases, if◌then◌else◌, ℤ, pos, negsuc, ◌≤ℤ◌, ◌+ℤ◌, ◌-ℤ◌, scale,
  eq_ℤ,
}
use camonitor.HomeKit.Climate.{
  Ninetieths, round_div, celsius, gree_temp, rotation_speed_for_fan, fan_for_rotation_speed,
}

celsius_round : (t : ℤ) → round_div 90 (scale 90 t) ≡ t
unfolding round_div scale
celsius_round (pos n) = ground arith
celsius_round (negsuc n) = ground arith

fahrenheit_round : (t : ℤ) → round_div 50 (scale 50 (t -ℤ pos 32) +ℤ pos 1600) ≡ t
unfolding round_div scale ◌-ℤ◌ ◌+ℤ◌
fahrenheit_round (pos n) = ground arith
fahrenheit_round (negsuc n) = ground arith

-- A set point that is shown in Celsius and written back is the degree that the unit had, in either scale.
pub gree_temp-celsius : (t temp_unit : ℤ) → gree_temp (celsius t temp_unit) temp_unit ≡ t
unfolding gree_temp celsius
gree_temp-celsius t temp_unit = elim (Bool-cases (eq_ℤ temp_unit (pos 1))) [
  | inl e ↦ rw e (fahrenheit_round t)
  | inr e ↦ rw e (celsius_round t)
]

-- Half a degree of the unit's scale.
abbrev pub half_degree : ℤ → ℤ
half_degree temp_unit = if eq_ℤ temp_unit (pos 1) then pos 25 else pos 45

abbrev Near : ℤ → ℤ → ℤ → Type 0
Near a b d = (a ≤ℤ b +ℤ d) × (b ≤ℤ a +ℤ d)

celsius-Near : (c : ℤ) → Near (scale 90 (round_div 90 c)) c (pos 45)
unfolding round_div scale ◌+ℤ◌
celsius-Near (pos n) = ground arith
celsius-Near (negsuc n) = ground arith

fahrenheit-Near : (c : ℤ) → Near (scale 50 (round_div 50 (c +ℤ pos 1600) -ℤ pos 32)) c (pos 25)
unfolding round_div scale ◌-ℤ◌ ◌+ℤ◌
fahrenheit-Near (pos n) = ground arith
fahrenheit-Near (negsuc n) = ground arith

-- A temperature that a controller writes is set to within half a degree of the unit's scale, Fahrenheit or
-- Celsius.
pub set_point_near :
    (c temp_unit : ℤ)
    → (celsius (gree_temp c temp_unit) temp_unit ≤ℤ c +ℤ half_degree temp_unit)
      × (c ≤ℤ celsius (gree_temp c temp_unit) temp_unit +ℤ half_degree temp_unit)
unfolding gree_temp celsius
set_point_near c temp_unit = elim (Bool-cases (eq_ℤ temp_unit (pos 1))) [
  | inl e ↦ rw e (fahrenheit-Near c)
  | inr e ↦ rw e (celsius-Near c)
]

pub fan_kept : (n : ℕ) → n ≤ 5 → fan_for_rotation_speed (rotation_speed_for_fan (pos n)) ≡ pos n
unfolding fan_for_rotation_speed rotation_speed_for_fan scale round_div
fan_kept n h = ground arith

-- Whatever percentage is written, the fan speed that is sent is one of the unit's, from 0 to 5; and a speed
-- of the unit that is shown and written back is the same speed.
pub fan_bounds :
    (pct : Ninetieths) (n : ℕ)
    → n ≤ 5
    → (pos 0 ≤ℤ fan_for_rotation_speed pct)
      × (fan_for_rotation_speed pct ≤ℤ pos 5)
      × (fan_for_rotation_speed (rotation_speed_for_fan (pos n)) ≡ pos n)
unfolding fan_for_rotation_speed round_div
fan_bounds (pos k) n h = (ground arith, ground arith, fan_kept n h)
fan_bounds (negsuc k) n h = (ground arith, ground arith, fan_kept n h)
