-- ===== src/Gree/Controller.antt =====
-- gree.go: the controller, which keeps the last status, tells its observers and serves both over HTTP.
--
-- The observers change a state of their own. The timer of `Run` is not modelled: each of its rounds is one
-- `refresh`.
use camonitor.Prelude.{
  ℕ, Bool, not, List, [], ◌∷◌, ◌++◌, Option, none, some, if◌then◌else◌, ℤ, Text, is_empty, Map,
}
use camonitor.Clock.{Time}
use camonitor.Gree.{Json, GreeConfig, GreeClient, new_gree_client, GreeStatus, zero_status}
use camonitor.Gree.Cipher.{Aes}
use camonitor.Gree.Session.{Exchange, Handshake, Sent}
use camonitor.Gree.Unit
use camonitor.Gree.Unit.{SetError}

-- `cmp.Or`
abbrev first_non_empty : Text → Text → Text
first_non_empty a b = if is_empty a then b else a

pub record GreeController (W : Type 0) : Type 0 where
  pub client : GreeClient
  pub name : Text
  pub status : GreeStatus
  pub observers : List (GreeStatus → W → W)

-- The network's answers to one status read, and the time.
pub record Poll : Type 0 where
  pub handshake : Handshake
  pub reply : Exchange
  pub now : Time

abbrev set_status : Option SetError → ℕ
set_status none = 204
set_status (some e) = 502

module _ {W : Type 0} where
  unfoldable pub new_gree_controller : GreeConfig → GreeController W
  new_gree_controller cfg = record {
    client = new_gree_client cfg;
    name = first_non_empty (first_non_empty cfg.name cfg.host) cfg.mac;
    status = zero_status;
    observers = [];
  }

  unfoldable pub on_update : (GreeStatus → W → W) → GreeController W → GreeController W
  on_update fn g = record g { observers = g.observers ++ fn ∷ [] }

  unfoldable pub tell : List (GreeStatus → W → W) → GreeStatus → W → W
  tell [] st w = w
  tell (fn ∷ fns) st w = tell fns st (fn st w)

  publish : GreeController W → GreeClient × GreeStatus → W → GreeController W × W
  publish g (client, st) w = (
    record g { client = client; status = record st { name = g.name } },
    tell g.observers (record st { name = g.name }) w,
  )

  module _ (json : Json) (aes : Aes) where
    unfoldable pub refresh : Poll → GreeController W → W → GreeController W × W
    unfolding publish
    refresh p g w = publish g (Unit.status json aes p.handshake p.reply p.now g.client) w

    -- The command, and the read that follows it if it succeeds.
    unfoldable pub finish_set :
        Poll
        → GreeController W
        → W
        → GreeClient × Option SetError × Sent
        → GreeController W × W × Option SetError
    finish_set p g w (client, some e, sent) = (record g { client = client }, w, some e)
    finish_set p g w (client, none, sent) =
        let refreshed = refresh p (record g { client = client }) w in
        (refreshed.0, refreshed.1, none)

    unfoldable pub set :
        Handshake
        → Exchange
        → Poll
        → Map ℤ
        → GreeController W
        → W
        → GreeController W × W × Option SetError
    unfolding finish_set
    set h x p params g w = finish_set p g w (Unit.set json aes h x params g.client)

    -- POST /gree/set: the controller, the observers' state and the HTTP status.
    unfoldable pub handle_set :
        Bool
        → Option (Map ℤ)
        → Handshake
        → Exchange
        → Poll
        → GreeController W
        → W
        → GreeController W × W × ℕ
    handle_set is_post body h x p g w = if not is_post then (g, w, 405) else elim body [
      | none ↦ (g, w, 400)
      | some params ↦ let after = set h x p params g w in (after.0, after.1, set_status after.2)
    ]
