-- ===== src/Audit.antt =====
-- auditstore.go: the log of what guests did, a table of a SQLite database.
--
-- The table is its rows, and each SQL statement of the file is written out over them. A nil store is
-- `none`; whether the database answers is an argument of each method.
mod Examples
pub mod Listing
use camonitor.Prelude.{
  ℕ, ◌+◌, ◌-◌, ◌*◌, ◌≡◌, Bool, true, false, not, ◌&&◌, ◌||◌, List, [], ◌∷◌, ◌++◌, map, Option, none,
  some, ltb, leb, ◌==◌, if◌then◌else◌, length, take, Text, text_eq, is_empty, ℤ, pos, negsuc, sort,
  filter_by,
}
use camonitor.Clock.{Time, Duration, hour, unix, from_unix}

abbrev pub audit_retention : Duration
audit_retention = 60 * 24 * hour

-- Also the most that a listing returns.
abbrev pub audit_default_list : ℕ
audit_default_list = 200

pub record AuditEvent : Type 0 where
  pub time : Time
  pub guest_id : Text
  pub guest_label : Text
  pub action : Text
  pub result : Text
  pub source_ip : Text
  pub source_device : Text

-- Empty fields do not filter; a limit is an `int`.
pub record AuditFilter : Type 0 where
  pub guest_id : Text
  pub action : Text
  pub limit : ℤ

-- A row of the table: `ts` is in Unix seconds.
pub record Row : Type 0 where
  pub id : ℕ
  pub ts : ℕ
  pub guest_id : Text
  pub guest_label : Text
  pub action : Text
  pub result : Text
  pub source_ip : Text
  pub source_device : Text

-- `AUTOINCREMENT`: ids rise and are not used again.
pub record Table : Type 0 where
  pub rows : List Row
  pub next_id : ℕ

abbrev pub AuditStore : Type 0
AuditStore = Option Table

-- The row that `Log` inserts.
abbrev pub row_of : ℕ → AuditEvent → Row
row_of id e = record {
  id = id;
  ts = unix e.time;
  guest_id = e.guest_id;
  guest_label = e.guest_label;
  action = e.action;
  result = e.result;
  source_ip = e.source_ip;
  source_device = e.source_device;
}

-- Whether there was no error, and the store after.
unfoldable pub log : Bool → AuditEvent → AuditStore → Bool × AuditStore
log works e none = (true, none)
log false e (some t) = (false, some t)
log true e (some t) =
    (true, some (record { rows = t.rows ++ row_of t.next_id e ∷ []; next_id = t.next_id + 1 }))

-- `limit <= 0 || limit > auditDefaultList`
unfoldable pub list_limit : ℤ → ℕ
list_limit (negsuc n) = audit_default_list
list_limit (pos n) = if leb n 0 || ltb audit_default_list n then audit_default_list else n

-- `(? = '' OR guest_id = ?) AND (? = '' OR action = ?)`
unfoldable pub row_matches : AuditFilter → Row → Bool
row_matches f r =
    (is_empty f.guest_id || text_eq r.guest_id f.guest_id)
    && (is_empty f.action || text_eq r.action f.action)

-- `ORDER BY ts DESC, id DESC`
unfoldable pub row_before : Row → Row → Bool
row_before a b = ltb b.ts a.ts || ((a.ts == b.ts) && leb b.id a.id)

abbrev pub scan : Row → AuditEvent
scan r = record {
  time = from_unix r.ts;
  guest_id = r.guest_id;
  guest_label = r.guest_label;
  action = r.action;
  result = r.result;
  source_ip = r.source_ip;
  source_device = r.source_device;
}

-- The rows that the query selects.
unfoldable pub select : AuditFilter → Table → List Row
unfolding list_limit
select f t = take (list_limit f.limit) (sort row_before (filter_by (row_matches f) t.rows))

-- `none` is the error of the query.
unfoldable pub list : Bool → AuditFilter → AuditStore → Option (List AuditEvent)
unfolding select
list works f none = some []
list false f (some t) = none
list true f (some t) = some (map scan (select f t))

-- `DELETE FROM audit WHERE ts < ?`, and the number of rows deleted.
unfoldable pub prune : Bool → Time → AuditStore → Option ℕ × AuditStore
unfolding filter_by
prune works before none = (some 0, none)
prune false before (some t) = (none, some t)
prune true before (some t) =
    let kept = filter_by (λ r. not (ltb r.ts (unix before))) t.rows in
    (some (length t.rows - length kept), some (record t { rows = kept }))

-- `OpenAuditStore` on a path that opens: the old rows go first, and an error of that is the caller's.
unfoldable pub open_audit_store : Bool → Time → Table → Option AuditStore
unfolding prune
open_audit_store works now t = elim (prune works (now - audit_retention) (some t)).0 [
  | none ↦ none
  | some _ ↦ some (prune works (now - audit_retention) (some t)).1
]
