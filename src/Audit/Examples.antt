-- ===== src/Audit/Examples.antt =====
-- Tests of the audit log, and its theorems at concrete inputs.
use camonitor.Prelude.{
  ℕ, ◌+◌, ◌≡◌, refl, true, List, [], ◌∷◌, some, pos, negsuc, Text, codes, text_eq, sort, insert,
  filter_by,
}
use camonitor.Clock.{from_unix}
use camonitor.Audit.{
  AuditEvent, AuditFilter, Table, AuditStore, log, list, prune, row_matches, row_before, list_limit,
  select,
}

abbrev event : ℕ → Text → Text → AuditEvent
event ts guest action = record {
  time = from_unix ts;
  guest_id = guest;
  guest_label = [];
  action = action;
  result = codes "success";
  source_ip = [];
  source_device = [];
}

abbrev empty : Table
empty = record { rows = []; next_id = 1 }

-- Three openings, the second of them by another guest, and the third in the second of the first.
filled : AuditStore
unfolding log
filled =
    (log true (event 100 (codes "a") (codes "gate"))
      (log true (event 90 (codes "b") (codes "gate"))
        (log true (event 100 (codes "a") (codes "outdoor")) (some empty)).1).1).1

audit_runs : Unit {0}
unfolding filled list select sort insert filter_by row_matches row_before list_limit text_eq prune
audit_runs = tt

newest_first :
    list true (record { guest_id = []; action = []; limit = negsuc 4 }) filled
    ≡ some (
        event 100 (codes "a") (codes "gate")
        ∷ event 100 (codes "a") (codes "outdoor")
        ∷ event 90 (codes "b") (codes "gate")
        ∷ [])
unfolding audit_runs
newest_first = refl

filtered :
    list true (record { guest_id = []; action = codes "gate"; limit = pos 1 }) filled
    ≡ some (event 100 (codes "a") (codes "gate") ∷ [])
unfolding audit_runs
filtered = refl

pruned : (prune true (from_unix 100 + 999999999) filled).0 ≡ some 1
unfolding audit_runs
pruned = refl

abbrev two_rows : Table
two_rows = record {
  rows =
      record {
        id = 1;
        ts = 7;
        guest_id = codes "a";
        guest_label = [];
        action = codes "gate";
        result = codes "success";
        source_ip = [];
        source_device = [];
      }
      ∷ record {
        id = 2;
        ts = 9;
        guest_id = codes "b";
        guest_label = [];
        action = codes "gate";
        result = codes "denied";
        source_ip = [];
        source_device = [];
      }
      ∷ [];
  next_id = 3;
}

abbrev last_one : AuditFilter
last_one = record { guest_id = []; action = codes "gate"; limit = pos 1 }
