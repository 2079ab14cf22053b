-- ===== src/Gate/Controller.antt =====
-- centsys.go: the gate's controller, its status and the exchange that opens the gate.
--
-- The broker is an argument: whether the connection stands, which publications work, and what the operator
-- answers, in order; where the answers end, the deadline has passed. The callback changes a state of its own.
pub mod Rounds
pub mod Opened
pub mod Completes
mod Examples
use camonitor.Prelude.{
  ℕ, zero, suc, ◌+◌, ◌-◌, Bool, true, false, not, ◌&&◌, ◌||◌, List, [], ◌∷◌, ◌++◌, Option, none,
  some, ltb, ◌==◌, if◌then◌else◌, length, drop, map, Text, codes, is_empty,
}
use camonitor.Gate.{
  GateStatus, gate_open, gate_closed, gate_opening, gate_closing, gate_stopped, gate_unknown, Civil,
  build_cmd01, build_cmd05, build_cmd03_prefix, decode_cmd04,
}

pub record CentsysCreds : Type 0 where
  pub phone : Text
  pub serial : Text
  pub mac4 : Text

-- A gate's state as a number, to compare states.
abbrev pub rank : GateStatus → ℕ
rank gate_open = 0
rank gate_closed = 1
rank gate_opening = 2
rank gate_closing = 3
rank gate_stopped = 4
rank gate_unknown = 5

abbrev pub same_status : GateStatus → GateStatus → Bool
same_status s t = rank s == rank t

pub record CentsysController : Type 0 where
  pub creds : Option CentsysCreds
  pub status : GateStatus

-- Whether there is a session file that loads is the argument.
unfoldable pub new_centsys_controller : Option CentsysCreds → CentsysController
new_centsys_controller loaded = record { creds = loaded; status = gate_unknown }

-- A session that does not load leaves the controller as it was.
unfoldable pub reload : Option CentsysCreds → CentsysController → CentsysController
reload none c = c
reload (some cr) c = record c { creds = some cr }

module _ {W : Type 0} (on_update : GateStatus → W → W) where
  abbrev pub known_status : GateStatus → CentsysController → W → CentsysController × W
  known_status s c w =
      (record c { status = s }, if not (same_status c.status s) then on_update s w else w)

  unfoldable pub set_status : GateStatus → CentsysController → W → CentsysController × W
  set_status s c w = if same_status s gate_unknown then (c, w) else known_status s c w

-- How an attempt to open ends.
pub data OpenResult : Type 0 where
  opened not_signed_in not_connected publish_failed offline no_challenge : OpenResult
  no_response short_response kept_rejecting : OpenResult
  rejected : ℕ → OpenResult

-- A publication: topic and payload.
abbrev pub Published : Type 0
Published = List (Text × Text)

pub record Broker : Type 0 where
  pub connects : Bool
  pub publishes : ℕ → Bool
  pub wakes : Bool
  pub triggers : List Text

abbrev pub activation_ok : ℕ
activation_ok = 1

abbrev pub activation_configuration_mismatch : ℕ
activation_configuration_mismatch = 7

abbrev pub answered_code : ℕ → OpenResult
answered_code code = if code == activation_ok then opened else rejected code

abbrev pub is_final : ℕ → ℕ → ℕ → Bool
is_final code gate_cv cv = not (code == activation_configuration_mismatch) || gate_cv == cv

-- What a reply to the packet that names the version leads to.
abbrev pub replied :
    Text → ℕ → Option (ℕ × ℕ) → (ℕ → OpenResult × List Text) → OpenResult × List Text
replied packet cv none next = (short_response, packet ∷ [])
replied packet cv (some (code, gate_cv)) next =
    if is_final code gate_cv cv
    then (answered_code code, packet ∷ [])
    else ((next gate_cv).0, packet ∷ (next gate_cv).1)

-- The rounds that are left of the activation, with the version that the next packet names; the packets
-- that were sent. `n` counts the publications.
unfoldable pub activate : ℕ → (ℕ → Bool) → ℕ → Text → Text → ℕ → List Text → OpenResult × List Text
activate zero publishes n mac4 challenge cv replies = (kept_rejecting, [])
activate (suc rounds) publishes n mac4 challenge cv [] =
    if not (publishes n)
    then (publish_failed, [])
    else (no_response, (build_cmd03_prefix mac4 cv ++ challenge) ∷ [])
activate (suc rounds) publishes n mac4 challenge cv (r ∷ replies) =
    if not (publishes n)
    then (publish_failed, [])
    else replied (build_cmd03_prefix mac4 cv ++ challenge) cv (decode_cmd04 mac4 r)
        (λ gate_cv. activate rounds publishes (n + 1) mac4 challenge gate_cv replies)

abbrev pub topic : CentsysCreds → Text → Text
topic cr name = cr.serial ++ name

abbrev pub trigger : CentsysCreds → Text → Text × Text
trigger cr payload = (topic cr (codes "/userRemoteTrigger"), payload)

-- `p[len(p)-4:]`
abbrev pub last_four : Text → Text
last_four p = drop (length p - 4) p

-- The steps after the challenge; whatever answers the clock's packet is not looked at.
unfoldable pub challenged :
    Broker → CentsysCreds → Civil → Text → List Text → OpenResult × Published
challenged b cr now challenge replies =
    if not (b.publishes 2)
    then (publish_failed, [])
    else let rounds = activate 2 b.publishes 3 cr.mac4 challenge 0 (drop 1 replies) in
      (rounds.0, trigger cr (build_cmd05 cr.mac4 now) ∷ map (trigger cr) rounds.1)

unfoldable pub first_reply : Broker → CentsysCreds → Civil → List Text → OpenResult × Published
unfolding challenged
first_reply b cr now [] = (no_challenge, [])
first_reply b cr now (cmd02 ∷ replies) =
    if ltb (length cmd02) 4
    then (no_challenge, [])
    else challenged b cr now (last_four cmd02) replies

unfoldable pub woken : Broker → CentsysCreds → Civil → OpenResult × Published
unfolding first_reply
woken b cr now =
    if not b.wakes
    then (offline, [])
    else if not (b.publishes 1)
    then (publish_failed, [])
    else let after = first_reply b cr now b.triggers in
      (after.0, trigger cr (build_cmd01 cr.phone cr.mac4) ∷ after.1)

unfoldable pub connected : Broker → CentsysCreds → Civil → OpenResult × Published
unfolding woken
connected b cr now =
    if not (b.publishes 0)
    then (publish_failed, [])
    else let after = woken b cr now in
      (after.0, (topic cr (codes "/connectionRequest"), []) ∷ after.1)

-- Once connected, whatever happens, the operator is told of the end.
abbrev pub with_creds : Broker → Civil → Option CentsysCreds → OpenResult × Published
with_creds b now none = (not_signed_in, [])
with_creds b now (some cr) =
    if not b.connects
    then (not_connected, [])
    else let after = connected b cr now in
      (after.0, after.1 ++ (topic cr (codes "/disconnect"), []) ∷ [])

unfoldable pub centsys_open : Broker → Civil → CentsysController → OpenResult × Published
centsys_open b now c = with_creds b now c.creds
