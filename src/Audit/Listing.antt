-- ===== src/Audit/Listing.antt =====
-- What a listing shows and what a pruning leaves.
use mathlib.Core.List.{Memᴰ}
use camonitor.Prelude.{
  ℕ, ◌+◌, ◌-◌, ◌≤◌, ◌<◌, ◌≡◌, ◌↔◌, refl, Bool, true, false, not, List, map, none, some, arith, ltb,
  length, length-take, length-map, ℤ, pos, negsuc, sort, filter_by, mem-filter_by_to,
  mem-filter_by_of, length-filter_by-le, ap,
}
use camonitor.Clock.{Time, unix}
use camonitor.Audit.{
  AuditEvent, AuditFilter, Row, Table, AuditStore, audit_default_list, list_limit, row_matches,
  row_before, scan, select, list, prune,
}

pub list_limit_bounds :
    (limit : ℤ) → (0 < list_limit limit) × (list_limit limit ≤ audit_default_list)
unfolding list_limit
list_limit_bounds (negsuc n) = omega arith
list_limit_bounds (pos n) = ground arith

-- No listing has more than 200 events, whatever the limit asked for.
pub length-list :
    (works : Bool) (f : AuditFilter) (s : AuditStore) (events : List AuditEvent)
    → list works f s ≡ some events
    → length events ≤ audit_default_list
unfolding list select
length-list works f none events h = ground arith
length-list false f (some t) events h = absurd (cc)
length-list true f (some t) events h =
    let e : map scan (select f t) ≡ events = cc in
    omega (
      arith,
      ap length e,
      length-map scan (select f t),
      length-take (list_limit f.limit) (sort row_before (filter_by (row_matches f) t.rows)),
      list_limit_bounds f.limit,
    )

-- A pruning with a working database removes the rows older than the given second and no others, and
-- says how many; the ids go on from where they were.
pub prune_exact :
    (before : Time) (t : Table)
    → (n : ℕ) × (t' : Table) × (prune true before (some t) ≡ (some n, some t'))
      × ((r : Row) → Memᴰ r t'.rows ↔ (Memᴰ r t.rows × (unix before ≤ r.ts)))
      × (n + length t'.rows ≡ length t.rows)
      × (t'.next_id ≡ t.next_id)
unfolding prune
prune_exact before t =
    let test = λ (r : Row). not (ltb r.ts (unix before)) in
    (
      length t.rows - length (filter_by test t.rows),
      record t { rows = filter_by test t.rows },
      refl,
      λ r. (
        λ m. let (n, p) = mem-filter_by_to test t.rows r m in (n, ground arith),
        λ m. mem-filter_by_of test t.rows r m.0 (ground arith),
      ),
      omega (arith, length-filter_by-le test t.rows),
      refl,
    )
