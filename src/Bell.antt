-- ===== src/Bell.antt =====
-- bell.go: the coordinator of the door bells. A ring is debounced, photographed, kept in the bounded
-- history, stored, and sent to every open browser tab.
--
-- Each method takes the bus and the environment's answers. The bus's mutex makes the methods atomic;
-- the fetch of the snapshot, which runs outside of it, is an argument.
pub mod Store
pub mod Debounce
pub mod Ids
pub mod Handling
pub mod History
pub mod Snapshots
mod Examples
use mathlib.Core.List.{reverse}
use camonitor.Prelude.{
  ℕ, zero, suc, ◌+◌, ◌-◌, ◌*◌, Bool, true, false, ◌&&◌, List, [], ◌∷◌, ◌++◌, map, Option, none,
  some, ltb, leb, ◌==◌, if◌then◌else◌, length, take, drop, Text, codes, text_eq, is_empty, Map,
  lookup, put,
}
use camonitor.Clock.{Time, Duration, second, since, unix_nano}
use camonitor.Decimal.{decimal}
use camonitor.Config.{StreamConfig}
use Store.{BellEvent, Entry, BellStore, Order, has_jpeg, has_event_id, save, prune, load_recent}

abbrev pub bell_debounce : Duration
bell_debounce = 15 * second

abbrev pub history_cap : ℕ
history_cap = 50

-- The buffer of a subscriber's channel.
abbrev pub channel_cap : ℕ
channel_cap = 8

-- A subscriber: its channel, named by a number, and the events queued in it, oldest first.
pub record Subscriber : Type 0 where
  pub channel : ℕ
  pub queue : List BellEvent

pub record BellBus : Type 0 where
  pub streams : Map StreamConfig
  pub store : BellStore
  pub last_fire : Map Time
  pub history : List Entry
  pub latest : Map Text
  pub subs : List Subscriber
  pub next_channel : ℕ
  pub next_seq : ℕ

by_id : List StreamConfig → Map StreamConfig → Map StreamConfig
by_id [] m = m
by_id (s ∷ rest) m = by_id rest (put s.id s m)

-- One entry of the replay: appended, and its event the latest of its stream.
replay : List Entry → BellBus → BellBus
replay [] b = b
replay (e ∷ rest) b = replay rest (record b {
  history = b.history ++ e ∷ [];
  latest = put e.event.stream_id e.event.event_id b.latest;
})

abbrev or_nothing : Option (List Entry) → List Entry
or_nothing none = []
or_nothing (some es) = es

unfoldable pub new_bell_bus : Order → Bool → List StreamConfig → BellStore → BellBus
unfolding by_id replay load_recent
new_bell_bus o works streams store =
    replay (or_nothing (load_recent o works history_cap store)) (record {
      streams = by_id streams [];
      store = store;
      last_fire = [];
      history = [];
      latest = [];
      subs = [];
      next_channel = 0;
      next_seq = 0;
    })

-- A missing entry of the map reads as the zero time.
abbrev pub last_of : Text → Map Time → Time
last_of id m = elim (lookup id m) [ none ↦ 0 | some t ↦ t ]

-- The stream whose ring is handled, or none where the ring is dropped, and the bus.
unfoldable pub fire : Text → Time → BellBus → Option StreamConfig × BellBus
fire stream_id now b = elim (lookup stream_id b.streams) [
  | none ↦ (none, b)
  | some s ↦
      if ltb (since now (last_of stream_id b.last_fire)) bell_debounce
      then (none, b)
      else (some s, record b { last_fire = put stream_id now b.last_fire })
]

-- `fmt.Sprintf("%d-%d", t.UnixNano(), seq)`, and the counter after.
unfoldable pub make_event_id : Time → BellBus → Text × BellBus
make_event_id t b =
    let seq = b.next_seq + 1 in
    (decimal (unix_nano t) ++ (b'-' ∷ decimal seq), record b { next_seq = seq })

-- At the cap, `copy(history, history[1:])` and the cut to one less make room.
unfoldable pub push_history : List Entry → Entry → List Entry
push_history hs e =
    (if leb history_cap (length hs) then take (history_cap - 1) (drop 1 hs) else hs) ++ e ∷ []

unfoldable pub append_history : Entry → BellBus → BellBus
unfolding push_history
append_history e b = record b {
  history = push_history b.history e;
  latest = put e.event.stream_id e.event.event_id b.latest;
}

-- A full channel loses its oldest event.
unfoldable pub send : BellEvent → Subscriber → Subscriber
send ev s = record s {
  queue = (if ltb (length s.queue) channel_cap then s.queue else drop 1 s.queue) ++ ev ∷ [];
}

unfoldable pub broadcast : BellEvent → BellBus → BellBus
unfolding send
broadcast ev b = record b { subs = map (send ev) b.subs }

-- `handle` as far as the bus goes, its calls of the bus one after the other: `jpeg` is what the fetch
-- returned, empty where it failed. The message to WhatsApp, which changes nothing here, is not part
-- of it.
unfoldable pub handle : Order → Bool → StreamConfig → Time → Text → BellBus → BellEvent × BellBus
unfolding make_event_id
handle o works s t jpeg b =
    let (id, b') = make_event_id t b in
    let ev : BellEvent = record {
      event_id = id;
      stream_id = s.id;
      name = if is_empty s.name then s.id else s.name;
      time = t;
      has_snapshot = has_jpeg jpeg;
    } in
    let kept = append_history (record { event = ev; jpeg = jpeg }) b' in
    let (saved, store) = save works ev jpeg kept.store in
    (
      ev,
      broadcast ev
          (record kept { store = if saved then (prune o works history_cap store).1 else store }),
    )

-- The first entry that has the id, looking from the newest.
unfoldable pub find_event : Text → List Entry → Option Entry
find_event id [] = none
find_event id (e ∷ es) = if has_event_id id e then some e else find_event id es

-- The JPEG, the time and whether there is a picture; `none` where no entry has the id.
unfoldable pub snapshot_by_event : Text → BellBus → Option (Text × Time × Bool)
snapshot_by_event id b = elim (find_event id (reverse b.history)) [
  | none ↦ none
  | some e ↦ some (e.jpeg, e.event.time, has_jpeg e.jpeg)
]

unfoldable pub latest_snapshot : Text → BellBus → Option (Text × Time × Bool)
unfolding snapshot_by_event
latest_snapshot stream_id b = elim (lookup stream_id b.latest) [
  | none ↦ none
  | some id ↦ snapshot_by_event id b
]

-- Newest first.
unfoldable pub history_of : BellBus → List BellEvent
history_of b = map (λ e. e.event) (reverse b.history)

unfoldable pub subscribe : BellBus → ℕ × BellBus
subscribe b = (
  b.next_channel,
  record b {
    subs = b.subs ++ record { channel = b.next_channel; queue = [] } ∷ [];
    next_channel = b.next_channel + 1;
  },
)

drop_channel : ℕ → List Subscriber → List Subscriber
drop_channel ch [] = []
drop_channel ch (s ∷ ss) =
    let rest = drop_channel ch ss in if s.channel == ch then rest else s ∷ rest

-- Called twice, it does nothing the second time.
unfoldable pub unsubscribe : ℕ → BellBus → BellBus
unfolding drop_channel
unsubscribe ch b = record b { subs = drop_channel ch b.subs }

-- What `GET /snapshot` answers: a status, and the picture with its time.
unfoldable pub handle_snapshot : Text → Text → BellBus → ℕ × Option (Text × Time)
handle_snapshot event_id stream_id b =
    if is_empty event_id && is_empty stream_id
    then (400, none)
    else elim (if is_empty event_id
        then latest_snapshot stream_id b
        else snapshot_by_event event_id b) [
          | none ↦ (404, none)
          | some (jpeg, time, has) ↦ if has then (200, some (jpeg, time)) else (404, none)
        ]
