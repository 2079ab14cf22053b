-- ===== src/HomeKit/Climate/Writes.antt =====
-- hkclimate.go with gree.go: which writes reach the unit, and what the tile shows after them.
use mathlib.Core.List.{Memᴰ}
use camonitor.Prelude.{◌≡◌, refl, ap, Bool, [], Option, some, ℤ, codes, text_eq, Map, lookup}
use camonitor.Gree.{Json, GreeClient, gree_column_for}
use camonitor.Gree.Cipher.{Aes}
use camonitor.Gree.Session.{Exchange, Handshake}
use camonitor.Gree.Unit
use camonitor.Gree.Unit.{translate, SetError, unknown_parameter, status_of}
use camonitor.Gree.Unit.Commands.{set_unknown}
use camonitor.Gree.Controller
use camonitor.Gree.Controller.{GreeController, Poll}
use camonitor.HomeKit.Climate.{
  TargetState, HkClimate, GreeDevice, write_swing, write_params, write, settle,
}

swing_unknown :
    (json : Json) (aes : Aes) (h : Handshake) (x : Exchange) (on : Bool) (temp_unit : ℤ)
    (last_target : TargetState) (c : GreeClient)
    → Unit.set json aes h x (write_params (write_swing on) temp_unit last_target) c
      ≡ (c, some unknown_parameter, [])
unfolding write_params gree_column_for lookup text_eq
swing_unknown json aes h x on temp_unit last_target c =
    set_unknown json aes h x _ c (codes "swing_v") _ (Memᴰ.head refl) refl

-- The controller as the tile's device.
module _ {W : Type 0} (json : Json) (aes : Aes) (h : Handshake) (x : Exchange) (p : Poll) where
  unfoldable pub controlled_by : GreeController W → W → GreeDevice
  controlled_by g w = record {
    status = g.status;
    set =
        λ params. let after = Controller.set json aes h x p params g w in (after.2, after.0.status);
  }

  unknown_to_controller :
      (params : Map ℤ) (g : GreeController W) (w : W)
      → Unit.set json aes h x params g.client ≡ (g.client, some unknown_parameter, [])
      → Controller.set json aes h x p params g w ≡ (g, w, some unknown_parameter)
  unfolding Controller.set Controller.finish_set
  unknown_to_controller params g w e = ap (Controller.finish_set json aes p g w) e

  -- A swing that a controller switches on or off never reaches the unit, whatever the network does: the
  -- name under which it is sent is not one that the unit's client knows. The controller is told of an
  -- error, the client sends nothing, and the unit's status and the tile stay as they were.
  pub swing_fails :
      (on : Bool) (g : GreeController W) (w : W) (c : HkClimate)
      → (Unit.set json aes h x
            (write_params (write_swing on) g.status.temp_unit c.last_target)
            g.client
          ≡ (g.client, some unknown_parameter, []))
        × (Controller.set json aes h x p
              (write_params (write_swing on) g.status.temp_unit c.last_target)
              g
              w
            ≡ (g, w, some unknown_parameter))
        × (write (controlled_by g w) (write_swing on) c ≡ (c, some unknown_parameter))
  unfolding write controlled_by settle
  swing_fails on g w c =
      let params : Map ℤ = write_params (write_swing on) g.status.temp_unit c.last_target in
      let unsent = swing_unknown json aes h x on g.status.temp_unit c.last_target g.client in
      let refused : Controller.set json aes h x p params g w ≡ (g, w, some unknown_parameter) =
        unknown_to_controller params g w unsent in
      (
        unsent,
        refused,
        ap (λ (r : GreeController W × W × Option SetError). settle (r.2, r.0.status) c) refused,
      )
