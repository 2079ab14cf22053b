-- ===== src/Config/Examples.antt =====
-- Tests of the configuration's checks, and their theorem at a concrete input.
use camonitor.Prelude.{◌≡◌, ◌≢◌, refl, true, List, [], ◌∷◌, none, some, All, Text, codes, text_eq}
use camonitor.Config.{
  StreamConfig, GuestConfig, Config, rejected, stream_duplicate, guest_demo_code, check_guest,
  default_guest, check_streams, load_config, door_streams, door_open_url,
}
use camonitor.Config.Valid.{IsUsable, HasUniqueIds, IsGuestSafe, load_config_valid}

abbrev camera : Text → StreamConfig
camera id = record {
  id = id;
  name = [];
  host = codes "192.168.1.20";
  user = codes "admin";
  pass = [];
  door = true;
  rtsp_path_template = [];
  codec = [];
  sip_ext = [];
  sip_pass = [];
  rtsp_url_override = [];
  door_url_override = [];
}

abbrev guests : Text → GuestConfig
guests demo_code = record {
  store_path = [];
  public_base = codes "https://gate.example";
  audit_path = [];
  cameras = [];
  stream_secret = [];
  demo_code = demo_code;
}

abbrev configured : List StreamConfig → Text → Config
configured streams demo_code = record {
  listen = [];
  gree = none;
  guest = some (guests demo_code);
  streams = streams;
}

config_runs : Unit {0}
unfolding load_config check_guest default_guest check_streams door_streams door_open_url text_eq
config_runs = tt

rejects_duplicates :
    load_config (configured (camera (codes "a") ∷ camera (codes "a") ∷ []) [])
    ≡ rejected (stream_duplicate (codes "a"))
unfolding config_runs
rejects_duplicates = refl

rejects_short_demo_code :
    load_config (configured (camera (codes "a") ∷ []) (codes "REVIEW")) ≡ rejected guest_demo_code
unfolding config_runs
rejects_short_demo_code = refl

opens_by_http :
    door_open_url (camera (codes "a"))
    ≡ codes
        "http://192.168.1.20/cgi-bin/accessControl.cgi?action=openDoor&channel=1&UserID=101&Type=Remote"
unfolding config_runs
opens_by_http = refl

abbrev two_cameras : List StreamConfig
two_cameras = camera (codes "a") ∷ camera (codes "b") ∷ []

abbrev as_loaded : Config
as_loaded = record {
  listen = codes ":8080";
  gree = none;
  guest = some (record {
    store_path = codes "/var/lib/camonitor/guests.json";
    public_base = codes "https://gate.example";
    audit_path = codes "/var/lib/camonitor/guest-audit.db";
    cameras = [];
    stream_secret = [];
    demo_code = [];
  });
  streams = two_cameras;
}

load_config_valid_example :
    (two_cameras ≢ [])
    × All IsUsable two_cameras
    × HasUniqueIds two_cameras
    × IsGuestSafe (as_loaded.guest)
unfolding config_runs
load_config_valid_example = load_config_valid (configured two_cameras []) as_loaded refl
