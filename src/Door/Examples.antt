-- ===== src/Door/Examples.antt =====
-- Tests of the door client and the digest authentication, and the theorems at concrete inputs.

use camonitor.Prelude.{
  ◌≡◌, ◌⊎◌, refl, true, false, List, [], ◌∷◌, Option, none, some, Text, codes, text_eq, is_empty,
  cut, cut_prefix, trim_space, to_lower, Map, lookup, put,
}
use camonitor.Encoding.{hex}
use camonitor.Config.{StreamConfig, door_open_url}
use camonitor.Door.Digest.{
  Md5, split_digest_params, parse_digest_challenge, pick_qop, md5_hex, digest_hash,
  build_digest_response,
}
use camonitor.Door.{
  answered, opened, DoorRequest, Station, answer_challenge, first_request, with_first, client_open,
}
use camonitor.Door.Requests.{IsAsked, client_open_sent}

-- It stands in for MD5.
abbrev toy_md5 : Md5
toy_md5 = record { sum = λ s. elim s [ [] ↦ 0 ∷ [] | ◌∷◌ c r ↦ c ∷ [] ] }

door_runs : Unit {0}
unfolding text_eq cut cut_prefix trim_space to_lower lookup put hex door_open_url
    split_digest_params parse_digest_challenge pick_qop md5_hex digest_hash build_digest_response
    answer_challenge with_first client_open
door_runs = tt

abbrev challenge : Text
challenge = codes "Digest realm=\"Login, to 5\", qop=\"auth\",nonce=\"42\" , opaque=\"x\""

parses :
    parse_digest_challenge challenge
    ≡ some (record {
      realm = codes "Login, to 5";
      nonce = codes "42";
      qop = codes "auth";
      opaque = codes "x";
    })
unfolding door_runs
parses = refl

refuses_basic : parse_digest_challenge (codes "Basic realm=\"x\"") ≡ none
unfolding door_runs
refuses_basic = refl

picks : (pick_qop (codes "auth-int, auth") ≡ codes "auth") × (pick_qop (codes "auth-int") ≡ [])
unfolding door_runs
picks = (refl, refl)

abbrev door : StreamConfig
door = record {
  id = codes "a";
  name = [];
  host = codes "10.0.0.9";
  user = codes "u";
  pass = codes "p";
  door = true;
  rtsp_path_template = [];
  codec = [];
  sip_ext = [];
  sip_pass = [];
  rtsp_url_override = [];
  door_url_override = codes "http://10.0.0.9/open";
}

-- It asks for credentials, and takes any.
abbrev station : Station
station r = elim (is_empty (r.authorization)) [
  | true ↦ answered (record { status = 401; www_authenticate = challenge })
  | false ↦ answered (record { status = 200; www_authenticate = [] })
]

abbrev path_of : Text → Option Text
path_of url = some (codes "/open")

abbrev doors : Map StreamConfig
doors = (codes "a", door) ∷ []

opens : (client_open toy_md5 station path_of doors (codes "a") (codes "cn")).0 ≡ opened
unfolding door_runs
opens = refl

known : lookup (codes "a") doors ≡ some door
unfolding door_runs
known = refl

client_open_sent_example :
    (rest : List DoorRequest) × ((client_open toy_md5 station path_of doors
        (codes "a")
        (codes "cn")).1
      ≡ first_request toy_md5 station path_of door ∷ rest)
    × ((rest ≡ [])
        ⊎ ((r : DoorRequest) × (rest ≡ r ∷ [])
            × IsAsked toy_md5 station path_of (codes "cn") door r))
client_open_sent_example =
    client_open_sent toy_md5 station path_of doors (codes "a") (codes "cn") door known
