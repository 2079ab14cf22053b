-- ===== src/Bell/Store.antt =====
-- bellstore.go: the ring history in a SQLite table. A nil store is `none`; whether the database
-- answers is an argument of each method.
--
-- `ORDER BY fired_at_unix_nano DESC` leaves the order of rows of one time open, so the order is a
-- parameter: any that sorts.
use mathlib.Core.List.{reverse, Perm}
use camonitor.Prelude.{
  ℕ, Bool, true, false, not, ◌||◌, List, [], ◌∷◌, ◌++◌, map, Option, none, some, leb, if◌then◌else◌,
  take, Text, text_eq, is_empty, filter_by, IsSorted,
}
use camonitor.Clock.{Time}

pub record BellEvent : Type 0 where
  pub event_id : Text
  pub stream_id : Text
  pub name : Text
  pub time : Time
  pub has_snapshot : Bool

-- `historyEntry`, and `loadedEntry` and a row of the table with the same parts. An absent snapshot is
-- the empty one.
pub record Entry : Type 0 where
  pub event : BellEvent
  pub jpeg : Text

-- `len(jpeg) > 0`
abbrev pub has_jpeg : Text → Bool
has_jpeg jpeg = not (is_empty jpeg)

abbrev pub newer : Entry → Entry → Bool
newer a b = leb b.event.time a.event.time

-- `ORDER BY fired_at_unix_nano DESC`
pub record Order : Type 0 where
  pub order : List Entry → List Entry
  pub order-perm : (rows : List Entry) → Perm (order rows) rows
  pub order-IsSorted : (rows : List Entry) → IsSorted newer (order rows)

abbrev pub BellStore : Type 0
BellStore = Option (List Entry)

abbrev pub has_event_id : Text → Entry → Bool
has_event_id id e = text_eq e.event.event_id id

-- `INSERT OR REPLACE` on the primary key `event_id`.
unfoldable pub save : Bool → BellEvent → Text → BellStore → Bool × BellStore
save works ev jpeg none = (true, none)
save false ev jpeg (some rows) = (false, some rows)
save true ev jpeg (some rows) = (
  true,
  some (
      filter_by (λ r. not (has_event_id ev.event_id r)) rows
      ++ record { event = ev; jpeg = jpeg } ∷ []),
)

abbrev pub has_id_in : List Entry → Entry → Bool
has_id_in [] e = false
has_id_in (k ∷ ks) e = has_event_id k.event.event_id e || has_id_in ks e

module _ (o : Order) where
  -- `DELETE … WHERE event_id NOT IN (SELECT … ORDER BY … DESC LIMIT ?)`
  unfoldable pub prune : Bool → ℕ → BellStore → Bool × BellStore
  prune works keep none = (true, none)
  prune works keep (some rows) =
      if leb keep 0
      then (true, some rows)
      else if works
      then (true, some (filter_by (has_id_in (take keep (o.order rows))) rows))
      else (false, some rows)

  -- The event is built anew from the columns: `HasSnapshot` follows the blob.
  abbrev scan : Entry → Entry
  scan r = record r { event = record (r.event) { has_snapshot = has_jpeg r.jpeg } }

  -- The newest rows, oldest first; `none` is an error.
  unfoldable pub load_recent : Bool → ℕ → BellStore → Option (List Entry)
  load_recent works limit none = some []
  load_recent works limit (some rows) =
      if leb limit 0
      then some []
      else if works
      then some (reverse (map scan (take limit (o.order rows))))
      else none
