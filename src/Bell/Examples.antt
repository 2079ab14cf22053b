-- ===== src/Bell/Examples.antt =====
-- Tests of the door bells, and their theorems at concrete inputs.

use camonitor.Prelude.{
  ◌+◌, ◌*◌, ◌≤◌, ◌≡◌, refl, true, false, List, [], ◌∷◌, ◌++◌, none, some, arith, length, All, Text,
  codes, text_eq, lookup, put, sort, insert, filter_by, last_n, sort-perm, sort-IsSorted,
}
use camonitor.Clock.{Time, second, from_unix}
use camonitor.Decimal.{decimal}
use camonitor.Config.{StreamConfig}
use camonitor.Bell.Store.{BellEvent, Entry, Order, newer, save, prune, load_recent}
use camonitor.Bell.{
  BellBus, Subscriber, bell_debounce, history_cap, channel_cap, new_bell_bus, fire, make_event_id,
  push_history, append_history, send, broadcast, handle, find_event, snapshot_by_event,
  latest_snapshot, history_of, subscribe, unsubscribe, handle_snapshot,
}
use camonitor.Bell.Debounce.{fire_all, rings_apart}
use camonitor.Bell.History.{append_all, broadcast_all, history-append_all}

newer_total : (a b : Entry) → newer a b ≡ false → newer b a ≡ true
newer_total a b h = ground arith

newer_trans : (a b c : Entry) → newer a b ≡ true → newer b c ≡ true → newer a c ≡ true
newer_trans a b c h k = ground arith

abbrev by_time : Order
by_time = record {
  order = sort newer;
  order-perm = sort-perm newer;
  order-IsSorted = sort-IsSorted newer newer_total newer_trans;
}

abbrev door : Text → StreamConfig
door id = record {
  id = id;
  name = [];
  host = codes "192.168.1.20";
  user = [];
  pass = [];
  door = true;
  rtsp_path_template = [];
  codec = [];
  sip_ext = [];
  sip_pass = [];
  rtsp_url_override = [];
  door_url_override = [];
}

bell_runs : Unit {0}
unfolding text_eq lookup put sort insert filter_by last_n decimal save prune load_recent
    new_bell_bus fire make_event_id push_history append_history send broadcast handle find_event
    snapshot_by_event latest_snapshot history_of subscribe unsubscribe handle_snapshot fire_all
    append_all broadcast_all
bell_runs = tt

-- Two doors, one browser tab, no ring yet.
quiet : BellBus
unfolding bell_runs
quiet =
    (subscribe (new_bell_bus by_time true (door (codes "a") ∷ door (codes "b") ∷ []) (some []))).1

abbrev noon : Time
noon = from_unix 1700000000

rung : BellEvent × BellBus
unfolding bell_runs quiet
rung = handle by_time true (door (codes "a")) noon (codes "jpeg") (fire (codes "a") noon quiet).1

shows_ring :
    (rung.0.event_id ≡ codes "1700000000000000000-1")
    × (history_of rung.1 ≡ rung.0 ∷ [])
    × (handle_snapshot [] (codes "a") rung.1 ≡ (200, some (codes "jpeg", noon)))
    × (handle_snapshot [] (codes "b") rung.1 ≡ (404, none))
unfolding bell_runs quiet rung
shows_ring = (refl, refl, refl, refl)

survives_restart : history_of (new_bell_bus by_time true [] rung.1.store) ≡ rung.0 ∷ []
unfolding bell_runs quiet rung
survives_restart = refl

abbrev rings : List (Text × Time)
rings = (codes "b", noon + second) ∷ (codes "a", noon + 14 * second) ∷ []

let_through :
    ((fire (codes "a") noon quiet).0 ≡ some (door (codes "a")))
    × ((fire (codes "a") (noon + 14 * second) (fire (codes "a") noon quiet).1).0 ≡ none)
    × ((fire (codes "a") (noon + 15 * second) (fire_all rings (fire (codes "a") noon quiet).1)).0
        ≡ some (door (codes "a")))
unfolding bell_runs quiet
let_through = (refl, refl, refl)

rings_apart_example : noon + bell_debounce ≤ noon + 15 * second
rings_apart_example =
    rings_apart (codes "a") noon (noon + 15 * second) rings quiet (door (codes "a"))
      (door (codes "a")) let_through.0 let_through.2

abbrev entry : Text → Text → Entry
entry id stream = record {
  event = record {
    event_id = id;
    stream_id = stream;
    name = stream;
    time = noon;
    has_snapshot = true;
  };
  jpeg = id;
}

quiet_history : length quiet.history ≤ history_cap
unfolding bell_runs quiet
quiet_history = omega arith

history-append_all_example :
    (append_all (entry (codes "1") (codes "a") ∷ []) quiet).history
    ≡ last_n history_cap (quiet.history ++ entry (codes "1") (codes "a") ∷ [])
history-append_all_example =
    history-append_all (entry (codes "1") (codes "a") ∷ []) quiet quiet_history

abbrev HasRoom : Subscriber → Type 0
HasRoom s = length s.queue ≤ channel_cap

quiet_room : All HasRoom quiet.subs
unfolding bell_runs quiet
quiet_room = (omega arith, tt)

same_id : (make_event_id noon quiet).0 ≡ (make_event_id noon (record quiet { history = [] })).0
unfolding bell_runs quiet
same_id = refl
