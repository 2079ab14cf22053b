-- ===== src/Gree.antt =====
-- gree.go: the air conditioner's configuration, the columns of its protocol, and the state of the client
-- and of what it reads.
--
-- JSON is read and written by Go's library, which is a parameter here (`Json`); AES is one in `Gree.Cipher`.
-- Numbers in replies are integers. A configured port is not negative.
pub mod Cipher
pub mod Session
pub mod Unit
pub mod Controller
pub mod Examples
use camonitor.Prelude.{
  ℕ, ◌+◌, ◌≡◌, Bool, true, false, not, ◌&&◌, ◌||◌, List, [], ◌∷◌, ◌++◌, Option, none, some, arith,
  ◌==◌, if◌then◌else◌, ℤ, pos, Text, codes, is_empty, contains, text_eq, to_lower, filter_by, Map,
  lookup,
}
use camonitor.Clock.{Time}
use camonitor.Decimal.{decimal}

abbrev pub gree_default_port : ℕ
gree_default_port = 7000

abbrev pub gree_generic_key : Text
gree_generic_key = codes "a3K8Bx%2r8Y7#xDh"

abbrev pub gree_broadcast_addr : Text
gree_broadcast_addr = codes "255.255.255.255"

pub record GreeConfig : Type 0 where
  pub host : Text
  pub mac : Text
  pub port : ℕ
  pub name : Text

abbrev is_separator : ℕ → Bool
is_separator c = (c == b':') || ((c == b'-') || (c == b'.'))

unfoldable pub gree_normalize_mac : Text → Text
gree_normalize_mac mac = to_lower (filter_by (λ c. not (is_separator c)) mac)

unfoldable pub config_port : GreeConfig → ℕ
config_port g = if g.port == 0 then gree_default_port else g.port

-- What a JSON object of the protocol holds, as far as the code looks.
pub data Scalar : Type 0 where
  text : Text → Scalar
  number : ℤ → Scalar
  other : Scalar

pub data Value : Type 0 where
  scalar : Scalar → Value
  array : List Scalar → Value

abbrev pub Object : Type 0
Object = Map Value

-- `json.Marshal` and `json.Unmarshal` of objects; `none` is an error.
pub record Json : Type 0 where
  pub marshal : Object → Text
  pub unmarshal : Text → Option Object

abbrev scalar_text : Scalar → Text
scalar_text (text t) = t
scalar_text (number n) = []
scalar_text other = []

abbrev value_text : Option Value → Text
value_text none = []
value_text (some (scalar s)) = scalar_text s
value_text (some (array xs)) = []

-- `s, _ := m[k].(string)`
unfoldable pub text_at : Text → Object → Text
text_at k m = value_text (lookup k m)

abbrev value_array : Option Value → List Scalar
value_array none = []
value_array (some (scalar s)) = []
value_array (some (array xs)) = xs

-- `a, _ := m[k].([]any)`
unfoldable pub array_at : Text → Object → List Scalar
array_at k m = value_array (lookup k m)

pub record Addr : Type 0 where
  pub ip : Text
  pub port : ℕ

unfoldable pub same_addr : Addr → Addr → Bool
same_addr a b = text_eq a.ip b.ip && (a.port == b.port)

pub record GreeClient : Type 0 where
  pub mac : Text
  pub port : ℕ
  pub scan_targets : List Text
  pub broadcast_only : Bool
  pub addr : Option Addr
  pub cid : Text
  pub key : Option Text

-- `net.JoinHostPort`
unfoldable pub join_host_port : Text → ℕ → Text
join_host_port host port =
    if contains b':' host
    then (b'[' ∷ host) ++ (codes "]:" ++ decimal port)
    else host ++ (b':' ∷ decimal port)

unfoldable pub new_gree_client : GreeConfig → GreeClient
unfolding gree_normalize_mac config_port join_host_port
new_gree_client cfg = record {
  mac = gree_normalize_mac cfg.mac;
  port = config_port cfg;
  scan_targets =
      let broadcast = join_host_port gree_broadcast_addr (config_port cfg) ∷ [] in
      if is_empty cfg.host
      then broadcast
      else join_host_port cfg.host (config_port cfg) ∷ broadcast;
  broadcast_only = false;
  addr = none;
  cid = [];
  key = none;
}

unfoldable pub broadcast_addr : GreeClient → Addr
broadcast_addr c = record { ip = gree_broadcast_addr; port = c.port }

unfoldable pub send_target : GreeClient → Option Addr
unfolding broadcast_addr
send_target c = if c.broadcast_only then some (broadcast_addr c) else c.addr

unfoldable pub reset : GreeClient → GreeClient
reset c = record c { addr = none; cid = []; key = none }

pub record GreeStatus : Type 0 where
  pub configured : Bool
  pub online : Bool
  pub name : Text
  pub power : ℤ
  pub mode : ℤ
  pub set_temp : ℤ
  pub fan_speed : ℤ
  pub air : ℤ
  pub health : ℤ
  pub sleep : ℤ
  pub light : ℤ
  pub swing_v : ℤ
  pub quiet : ℤ
  pub turbo : ℤ
  pub temp_unit : ℤ
  pub energy_save : ℤ
  pub room_temp : ℤ
  pub last_updated : Time

-- A status of which nothing is known.
abbrev pub zero_status : GreeStatus
zero_status = record {
  configured = false;
  online = false;
  name = [];
  power = pos 0;
  mode = pos 0;
  set_temp = pos 0;
  fan_speed = pos 0;
  air = pos 0;
  health = pos 0;
  sleep = pos 0;
  light = pos 0;
  swing_v = pos 0;
  quiet = pos 0;
  turbo = pos 0;
  temp_unit = pos 0;
  energy_save = pos 0;
  room_temp = pos 0;
  last_updated = 0;
}

unfoldable pub status_columns : List Text
status_columns =
    codes "Pow"
    ∷ codes "Mod"
    ∷ codes "SetTem"
    ∷ codes "WdSpd"
    ∷ codes "Air"
    ∷ codes "Blo"
    ∷ codes "Health"
    ∷ codes "SwhSlp"
    ∷ codes "Lig"
    ∷ codes "SwingLfRig"
    ∷ codes "SwUpDn"
    ∷ codes "Quiet"
    ∷ codes "Tur"
    ∷ codes "StHt"
    ∷ codes "TemUn"
    ∷ codes "HeatCoolType"
    ∷ codes "TemRec"
    ∷ codes "SvSt"
    ∷ codes "TemSen"
    ∷ []

-- The names of the HTTP interface and their columns.
abbrev pub column_table : Map Text
column_table =
    (codes "power", codes "Pow")
    ∷ (codes "mode", codes "Mod")
    ∷ (codes "temp", codes "SetTem")
    ∷ (codes "fan", codes "WdSpd")
    ∷ (codes "air", codes "Air")
    ∷ (codes "health", codes "Health")
    ∷ (codes "sleep", codes "SwhSlp")
    ∷ (codes "light", codes "Lig")
    ∷ (codes "swing", codes "SwUpDn")
    ∷ (codes "quiet", codes "Quiet")
    ∷ (codes "turbo", codes "Tur")
    ∷ (codes "energy", codes "SvSt")
    ∷ (codes "temp_unit", codes "TemUn")
    ∷ []

unfoldable pub gree_column_for : Text → Option Text
gree_column_for name = lookup name column_table
