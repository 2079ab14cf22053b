-- ===== src/Config.antt =====
-- main.go: the streams of the configuration file, and the checks of `loadConfig`. The JSON decoding is
-- not modelled: the checks take what it decodes to.
pub mod Valid
mod Examples
use camonitor.Prelude.{
  ℕ, ◌≡◌, Bool, true, false, not, ◌&&◌, ◌||◌, List, [], ◌∷◌, ◌++◌, Option, none, some, ltb,
  if◌then◌else◌, length, Text, codes, text_eq, is_empty,
}

pub record StreamConfig : Type 0 where
  pub id : Text
  pub name : Text
  pub host : Text
  pub user : Text
  pub pass : Text
  pub door : Bool
  pub rtsp_path_template : Text
  pub codec : Text
  pub sip_ext : Text
  pub sip_pass : Text
  pub rtsp_url_override : Text
  pub door_url_override : Text

unfoldable pub door_streams : List StreamConfig → List StreamConfig
door_streams [] = []
door_streams (s ∷ rest) = let more = door_streams rest in if s.door then s ∷ more else more

unfoldable pub door_open_url : StreamConfig → Text
door_open_url s =
    if is_empty s.door_url_override
    then codes "http://"
      ++ (s.host
          ++ codes "/cgi-bin/accessControl.cgi?action=openDoor&channel=1&UserID=101&Type=Remote")
    else s.door_url_override

pub record GuestConfig : Type 0 where
  pub store_path : Text
  pub public_base : Text
  pub audit_path : Text
  pub cameras : List (Text × Text)
  pub stream_secret : Text
  pub demo_code : Text

-- The host and the MAC of the `gree` block.
pub record GreeAddress : Type 0 where
  pub host : Text
  pub mac : Text

pub record Config : Type 0 where
  pub listen : Text
  pub gree : Option GreeAddress
  pub guest : Option GuestConfig
  pub streams : List StreamConfig

pub data ConfigError : Type 0 where
  guest_public_base guest_stream_secret guest_demo_code no_streams gree_address : ConfigError
  stream_id stream_duplicate stream_host : Text → ConfigError

abbrev pub min_demo_code_len : ℕ
min_demo_code_len = 16

abbrev pub or_default : Text → Text → Text
or_default s d = if is_empty s then d else s

abbrev pub no_cameras : List (Text × Text) → Bool
no_cameras [] = true
no_cameras (c ∷ cs) = false

-- The checks of the guest block and its defaults.
unfoldable pub check_guest : Option GuestConfig → Option ConfigError
check_guest none = none
check_guest (some g) =
    if is_empty g.public_base
    then some guest_public_base
    else if not (no_cameras g.cameras) && is_empty g.stream_secret
    then some guest_stream_secret
    else if not (is_empty g.demo_code) && ltb (length g.demo_code) min_demo_code_len
    then some guest_demo_code
    else none

unfoldable pub default_guest : Option GuestConfig → Option GuestConfig
default_guest none = none
default_guest (some g) = some (record g {
  store_path = or_default g.store_path (codes "/var/lib/camonitor/guests.json");
  audit_path = or_default g.audit_path (codes "/var/lib/camonitor/guest-audit.db");
})

abbrev pub seen_id : Text → List StreamConfig → Bool
seen_id id [] = false
seen_id id (s ∷ rest) = text_eq s.id id || seen_id id rest

-- The loop over the streams; `seen` are those behind, newest first.
unfoldable pub check_streams : List StreamConfig → List StreamConfig → Option ConfigError
check_streams seen [] = none
check_streams seen (s ∷ rest) =
    let more = check_streams (s ∷ seen) rest in
    if is_empty s.id
    then some (stream_id s.id)
    else if seen_id s.id seen
    then some (stream_duplicate s.id)
    else if is_empty s.host && is_empty s.rtsp_url_override
    then some (stream_host s.id)
    else more

abbrev pub no_address : Option GreeAddress → Bool
no_address none = false
no_address (some g) = is_empty g.host && is_empty g.mac

abbrev no_stream : List StreamConfig → Bool
no_stream [] = true
no_stream (s ∷ rest) = false

-- `loadConfig` behind the decoding: the configuration with its defaults, or the first error.
pub data Loaded : Type 0 where
  loaded : Config → Loaded
  rejected : ConfigError → Loaded

abbrev or_load : Option ConfigError → Loaded → Loaded
or_load (some e) next = rejected e
or_load none next = next

unfoldable pub load_config : Config → Loaded
load_config c = or_load (check_guest c.guest) (
    if no_stream c.streams
    then rejected no_streams
    else if no_address c.gree
    then rejected gree_address
    else or_load (check_streams [] c.streams) (
        loaded (record c {
          listen = or_default c.listen (codes ":8080");
          guest = default_guest c.guest;
        })))
