-- ===== src/Gree/Unit.antt =====
-- gree.go: the status that is read from the unit and the commands that set it, methods of the client.
pub mod Readings
pub mod Commands
use camonitor.Prelude.{
  ℕ, ◌≡◌, Bool, true, false, not, ◌&&◌, ◌||◌, List, [], ◌∷◌, Option, none, some, map, if◌then◌else◌,
  ℤ, pos, ◌-ℤ◌, eq_ℤ, ltb_ℤ, Text, codes, is_empty, text_eq, Map, lookup, put,
}
use camonitor.Clock.{Time}
use camonitor.Gree.{
  Json, Object, Scalar, text, number, other, Value, scalar, array, array_at, Addr, GreeConfig,
  GreeClient, new_gree_client, reset, GreeStatus, zero_status, status_columns, gree_column_for,
}
use camonitor.Gree.Cipher.{Aes}
use camonitor.Gree.Session.{
  Failure, failed, Result, ok, err, Exchange, Handshake, ensure_key, request, Sent,
}

column_name : Scalar → Text
column_name (text t) = t
column_name (number n) = []
column_name other = []

abbrev read_column : Text → Scalar → Map ℤ → Map ℤ
read_column name (number n) vals = put name n vals
read_column name (text t) vals = vals
read_column name other vals = vals

-- The numbers of a reply by their columns; what has no column, or no number, is passed over.
unfoldable pub read_columns : List Scalar → List Scalar → Map ℤ → Map ℤ
unfolding column_name
read_columns [] dat vals = vals
read_columns (c ∷ cols) [] vals = vals
read_columns (c ∷ cols) (d ∷ dat) vals = read_columns cols dat (read_column (column_name c) d vals)

abbrev value_or_zero : Option ℤ → ℤ
value_or_zero none = pos 0
value_or_zero (some n) = n

-- A Go map answers 0 for a key that it does not hold.
unfoldable pub value_of : Map ℤ → Text → ℤ
value_of vals k = value_or_zero (lookup k vals)

abbrev room : ℤ → ℤ
room ts = if ltb_ℤ (pos 0) ts then ts -ℤ pos 40 else pos 0

unfoldable pub status_of : Map ℤ → Time → GreeStatus
unfolding value_of
status_of vals now = record {
  configured = true;
  online = true;
  name = [];
  power = value_of vals (codes "Pow");
  mode = value_of vals (codes "Mod");
  set_temp = value_of vals (codes "SetTem");
  fan_speed = value_of vals (codes "WdSpd");
  air = value_of vals (codes "Air");
  health = value_of vals (codes "Health");
  sleep = value_of vals (codes "SwhSlp");
  light = value_of vals (codes "Lig");
  swing_v = value_of vals (codes "SwUpDn");
  quiet = value_of vals (codes "Quiet");
  turbo = value_of vals (codes "Tur");
  temp_unit = value_of vals (codes "TemUn");
  energy_save = value_of vals (codes "SvSt");
  room_temp = room (value_of vals (codes "TemSen"));
  last_updated = now;
}

abbrev pub offline : GreeStatus
offline = record zero_status { configured = true }

-- The parameters by columns, in the order in which the map is walked; none if a name is not known.
unfoldable pub translate : Map ℤ → Option (List Text × List ℤ)
translate [] = some ([], [])
translate ((k, v) ∷ params) = elim (gree_column_for k) [
  | none ↦ none
  | some col ↦ elim (translate params) [ none ↦ none | some (opt, p) ↦ some (col ∷ opt, v ∷ p) ]
]

abbrev command : List Text → List ℤ → Object
command opt p =
    (codes "opt", array (map text opt))
    ∷ (codes "p", array (map number p))
    ∷ (codes "t", scalar (text (codes "cmd")))
    ∷ []

abbrev status_query : Text → Object
status_query cid =
    (codes "cols", array (map text status_columns))
    ∷ (codes "mac", scalar (text cid))
    ∷ (codes "t", scalar (text (codes "status")))
    ∷ []

abbrev scalar_number : Scalar → ℤ
scalar_number (number n) = n
scalar_number (text t) = pos 0
scalar_number other = pos 0

abbrev value_number : Option Value → ℤ
value_number none = pos 0
value_number (some (scalar s)) = scalar_number s
value_number (some (array xs)) = pos 0

unfoldable pub is_accepted : Object → Bool
is_accepted resp =
    let code : ℤ = value_number (lookup (codes "r") resp) in
    eq_ℤ code (pos 0) || eq_ℤ code (pos 200)

-- Why a command fails: a name that is not known, no parameter, the network, or the unit's refusal.
pub data SetError : Type 0 where
  unknown_parameter : SetError
  no_parameters : SetError
  unreachable : Failure → SetError
  rejected : SetError

module _ (json : Json) (aes : Aes) where
  read_status : GreeClient × Result Object × Sent → Time → GreeClient × GreeStatus
  read_status (c, err f, sent) now = (reset c, offline)
  read_status (c, ok resp, sent) now = (
    c,
    status_of (read_columns (array_at (codes "cols") resp) (array_at (codes "dat") resp) []) now,
  )

  unfoldable pub status : Handshake → Exchange → Time → GreeClient → GreeClient × GreeStatus
  unfolding read_status
  status h x now c = elim (ensure_key json aes h c).1 [
    | some f ↦ ((ensure_key json aes h c).0, offline)
    | none ↦
        read_status
          (request json aes h x (status_query ((ensure_key json aes h c).0.cid))
            (ensure_key json aes h c).0)
          now
  ]

  command_result : GreeClient × Result Object × Sent → GreeClient × Option SetError × Sent
  command_result (c, err f, sent) = (reset c, some (unreachable f), sent)
  command_result (c, ok resp, sent) = (c, if is_accepted resp then none else some rejected, sent)

  send_command :
      Handshake → Exchange → List Text → List ℤ → GreeClient → GreeClient × Option SetError × Sent
  unfolding command_result
  send_command h x [] p c = (c, some no_parameters, [])
  send_command h x (col ∷ opt) p c = command_result (request json aes h x (command (col ∷ opt) p) c)

  unfoldable pub set :
      Handshake → Exchange → Map ℤ → GreeClient → GreeClient × Option SetError × Sent
  unfolding send_command
  set h x params c = elim (translate params) [
    | none ↦ (c, some unknown_parameter, [])
    | some (opt, p) ↦ send_command h x opt p c
  ]
