-- ===== src/Bell/Snapshots.antt =====
-- bell.go: the newest snapshot of a stream.
use mathlib.Core.List.{reverse, reverse-append, reverse-cons}
use camonitor.Prelude.{
  ℕ, ◌-◌, ◌<◌, ◌≤◌, ◌≡◌, ◌∙◌, refl, sym, ap, false, List, [], ◌∷◌, ◌++◌, some, arith, length, drop,
  All, All-append, Text, text_eq, text_eq_refl, lookup, lookup-put, lookup-put_self, last_n,
  append_assoc, length-append, drop-append, All-map,
}
use camonitor.Bell.Store.{Entry, has_jpeg, has_event_id}
use camonitor.Bell.{
  BellBus, history_cap, append_history, find_event, snapshot_by_event, latest_snapshot,
}
use camonitor.Bell.History.{append_all, history-append_all}

-- The entry is of another stream, and has another id.
abbrev pub IsOther : Entry → Entry → Type 0
IsOther e x =
    (text_eq x.event.stream_id e.event.stream_id ≡ false)
    × (has_event_id e.event.event_id x ≡ false)

find_event-append :
    (id : Text) (xs ys : List Entry)
    → All (λ x. has_event_id id x ≡ false) xs
    → find_event id (xs ++ ys) ≡ find_event id ys
unfolding find_event
find_event-append id [] ys h = refl
find_event-append id (x ∷ xs) ys h = rw h.0 (find_event-append id xs ys h.1)

All-reverse : (P : Entry → Type 0) (xs : List Entry) → All P xs → All P (reverse xs)
All-reverse P [] h = tt
All-reverse P (x ∷ xs) h =
    rw (reverse-cons x xs) (All-append P (reverse xs) (x ∷ []) (All-reverse P xs h.1) (h.0, tt))

-- Looking from the newest, the first entry with an id is the last one that has it.
find_event-reverse :
    (e : Entry) (before after : List Entry)
    → All (λ x. has_event_id e.event.event_id x ≡ false) after
    → find_event e.event.event_id (reverse (before ++ e ∷ after)) ≡ some e
unfolding find_event
find_event-reverse e before after h =
    let id = e.event.event_id in
    ap (find_event id) (reverse-append before (e ∷ after))
    ∙ ap (λ xs. find_event id (xs ++ reverse before)) (reverse-cons e after)
    ∙ ap (find_event id) (append_assoc (reverse after) (e ∷ []) (reverse before))
    ∙ find_event-append id (reverse after) (e ∷ reverse before)
        (All-reverse (λ x. has_event_id id x ≡ false) after h)
    ∙ rw (text_eq_refl id) refl

last_n-suffix :
    (n : ℕ) (xs ys : List Entry)
    → length ys ≤ n
    → (zs : List Entry) × (last_n n (xs ++ ys) ≡ zs ++ ys)
unfolding last_n
last_n-suffix n xs ys h = (
  drop (length (xs ++ ys) - n) xs,
  drop-append (length (xs ++ ys) - n) xs ys (omega (arith, length-append xs ys)),
)

latest-append_all :
    (e : Entry) (es : List Entry) (b : BellBus)
    → All (IsOther e) es
    → lookup e.event.stream_id b.latest ≡ some e.event.event_id
    → lookup e.event.stream_id (append_all es b).latest ≡ some e.event.event_id
unfolding append_all append_history
latest-append_all e [] b h l = l
latest-append_all e (x ∷ es) b h l = latest-append_all e es (append_history x b) h.1 (
    ground
      (arith, h.0.0, l, lookup-put x.event.stream_id e.event.stream_id x.event.event_id b.latest))

append_all-append :
    (es fs : List Entry) (b : BellBus) → append_all (es ++ fs) b ≡ append_all fs (append_all es b)
unfolding append_all
append_all-append [] fs b = refl
append_all-append (e ∷ es) fs b = append_all-append es fs (append_history e b)

kept_suffix :
    (before : List Entry) (e : Entry) (after : List Entry) (b : BellBus)
    → length b.history ≤ history_cap
    → length after < history_cap
    → (older : List Entry) × ((append_all (before ++ e ∷ after) b).history ≡ older ++ e ∷ after)
kept_suffix before e after b short few =
    let (older, eq) = last_n-suffix history_cap (b.history ++ before) (e ∷ after) (omega arith) in
    (
      older,
      history-append_all (before ++ e ∷ after) b short
          ∙ ap (last_n history_cap) (sym (append_assoc b.history before (e ∷ after)))
          ∙ eq,
    )

latest_of :
    (before : List Entry) (e : Entry) (after : List Entry) (b : BellBus)
    → All (IsOther e) after
    → lookup e.event.stream_id (append_all (e ∷ after) (append_all before b)).latest
      ≡ some e.event.event_id
unfolding append_all append_history
latest_of before e after b other =
    latest-append_all e after (append_history e (append_all before b)) other
      (lookup-put_self e.event.stream_id e.event.event_id (append_all before b).latest)

shown :
    (stream_id : Text) (e : Entry) (b : BellBus)
    → lookup stream_id b.latest ≡ some e.event.event_id
    → find_event e.event.event_id (reverse b.history) ≡ some e
    → latest_snapshot stream_id b ≡ some (e.jpeg, e.event.time, has_jpeg e.jpeg)
unfolding latest_snapshot snapshot_by_event
shown stream_id e b l f = rw (l, latest_snapshot, snapshot_by_event, f) refl

-- The snapshot that is shown for a stream is that of its newest ring, whatever came before it, as long
-- as fewer than fifty rings came after it, of other streams and with other ids.
pub latest_snapshot_lem :
    (before : List Entry) (e : Entry) (after : List Entry) (b : BellBus)
    → length b.history ≤ history_cap
    → length after < history_cap
    → All (IsOther e) after
    → latest_snapshot e.event.stream_id (append_all (before ++ e ∷ after) b)
      ≡ some (e.jpeg, e.event.time, has_jpeg e.jpeg)
latest_snapshot_lem before e after b short few other =
    let b' = append_all (before ++ e ∷ after) b in
    let (older, kept) = kept_suffix before e after b short few in
    let found : find_event e.event.event_id (reverse (b'.history)) ≡ some e =
      ap (λ hs. find_event e.event.event_id (reverse hs)) kept
      ∙ find_event-reverse e older after (
          All-map (IsOther e) (λ x. has_event_id e.event.event_id x ≡ false) after (λ x o. o.1)
            other) in
    let latest : lookup e.event.stream_id (b'.latest) ≡ some e.event.event_id =
      ap (λ (c : BellBus). lookup e.event.stream_id c.latest)
        (append_all-append before (e ∷ after) b)
      ∙ latest_of before e after b other in
    shown (e.event.stream_id) e b' latest found
