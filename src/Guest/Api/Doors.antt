-- ===== src/Guest/Api/Doors.antt =====
-- Who opens a door, and what is logged of it.
use mathlib.Core.List.{Memᴰ}
use camonitor.Prelude.{
  ℕ, ◌+◌, ◌≡◌, ◌≢◌, ◌⊎◌, ◌∙◌, refl, Bool, true, false, inl, inr, List, [], ◌∷◌, ◌++◌, some, arith,
  ◌==◌, if◌then◌else◌, if_both, Option-cases, Text, codes, cut_prefix, append-cut_prefix,
}
use camonitor.Audit.{AuditEvent, AuditStore, Row, Table, row_of}
use camonitor.Audit
use camonitor.Guest.Source.{Request, client_source}
use camonitor.Guest.Store.{Sha256, Guest, GuestRecord, hash_secret, mark_seen, authenticate}
use camonitor.Guest.Store.Access.{authenticate_sound}
use camonitor.Guest.Api.{
  Door, door_action, Server, Answers, Response, event, record_event, authorize, open_door,
  require_token,
}

log_ok :
    (e : AuditEvent) (works : Bool) (s : AuditStore) (t : Table)
    → works ≡ true
    → s ≡ some t
    → (Audit.log works e s).1
      ≡ some (record { rows = t.rows ++ row_of t.next_id e ∷ []; next_id = t.next_id + 1 })
unfolding Audit.log
log_ok e works s t h k = rw (h, k)

module _ (d : Sha256) where
  authorize_sound :
      (env : Answers) (r : Request) (s : Server) (g : Guest)
      → (authorize d env r s).0 ≡ some g
      → (token : Text) × (r.authorization ≡ codes "Bearer " ++ token)
        × (rec : GuestRecord) × Memᴰ rec s.store.guests
        × (rec.token_hash ≡ hash_secret d token)
        × (rec.revoked ≡ false)
        × (g ≡ (mark_seen env.now rec).guest)
  unfolding authorize
  authorize_sound env r s g h = elim (Option-cases (cut_prefix (codes "Bearer ") r.authorization)) [
    | inl e ↦ absurd (ground (arith, e))
    | inr (token, e) ↦
        let ok : (authenticate d token env.now env.seen_saved s.store).0 ≡ some g =
          ground (arith, e) in
        let (rec, m, hash, live, eq, _) =
          authenticate_sound d token env.now env.seen_saved s.store g ok in
        (token, append-cut_prefix (codes "Bearer ") r.authorization token e, rec, m, hash, live, eq)
  ]

  opens-authorize :
      (env : Answers) (r : Request) (s : Server) → (authorize d env r s).1.opens ≡ s.opens
  unfolding authorize
  opens-authorize env r s = refl

  opens-open_door :
      (env : Answers) (r : Request) (door : Door) (g : Guest) (s : Server)
      → (open_door d env r door g s).1.opens ≡ (if g.demo then s.opens else s.opens ++ door ∷ [])
  unfolding open_door record_event
  opens-open_door env r door g s = ground arith

  -- A door action runs only for a request that bears, behind `Bearer `, the token of a guest in the
  -- store who is neither revoked nor a demo guest; then it is the action of that door, and it is
  -- run once.
  pub door_opens_for_guest :
      (env : Answers) (r : Request) (door : Door) (s : Server)
      → (require_token d env r door s).1.opens ≢ s.opens
      → (token : Text) × (r.authorization ≡ codes "Bearer " ++ token)
        × (rec : GuestRecord) × Memᴰ rec s.store.guests
        × (rec.token_hash ≡ hash_secret d token)
        × (rec.revoked ≡ false)
        × (rec.demo ≡ false)
        × ((require_token d env r door s).1.opens ≡ s.opens ++ door ∷ [])
  unfolding require_token record_event
  door_opens_for_guest env r door s h = elim (Option-cases (authorize d env r s).0) [
    | inl e ↦ absurd (h (rw (e, require_token) (opens-authorize env r s)))
    | inr (g, e) ↦
        let (token, header, rec, m, hash, live, eq) = authorize_sound env r s g e in
        let opens = opens-open_door env r door g (authorize d env r s).1 in
        (
          token,
          header,
          rec,
          m,
          hash,
          live,
          ground (arith, e, opens, opens-authorize env r s),
          ground (arith, e, opens, opens-authorize env r s),
        )
  ]

  -- What the log says of a door request with this response.
  abbrev pub door_result : ℕ → Text
  door_result status =
      if status == 204
      then codes "success"
      else if status == 502
      then codes "failed"
      else codes "denied"

  -- The response to a door request says whether the action ran and how it went.
  abbrev pub DoorStatus : Answers → Door → List Door → List Door → ℕ → Type 0
  DoorStatus env door before after status =
      ((status ≡ 204) × (env.opened ≡ true) × (after ≡ before ++ door ∷ []))
      ⊎ ((status ≡ 502) × (env.opened ≡ false) × (after ≡ before ++ door ∷ []))
      ⊎ (((status ≡ 401) ⊎ (status ≡ 403)) × (after ≡ before))

  open_door-status :
      (env : Answers) (r : Request) (door : Door) (g : Guest) (s : Server)
      → DoorStatus env door s.opens
          (open_door d env r door g s).1.opens
          (open_door d env r door g s).0.status
  unfolding open_door record_event
  open_door-status env r door g s = ground arith

  -- Every door request is answered 204, 502, 401 or 403: the first two where the action ran, with
  -- success or failure, the others where it did not run.
  pub require_token-status :
      (env : Answers) (r : Request) (door : Door) (s : Server)
      → DoorStatus env door s.opens
          (require_token d env r door s).1.opens
          (require_token d env r door s).0.status
  unfolding require_token
  require_token-status env r door s = elim (Option-cases (authorize d env r s).0) [
    | inl e ↦
        rw (e, require_token) (inr (inr (inl refl, unfold record_event in opens-authorize env r s)))
    | inr (g, e) ↦
        rw (e, require_token)
          (unfold authorize in open_door-status env r door g (authorize d env r s).1)
  ]

  -- One row is written: for whom, of which action, with which result and from where.
  abbrev pub Logged : Request → Text → Text → Table → AuditStore → Type 0
  Logged r action result t after =
      (row : Row) × (after ≡ some (record { rows = t.rows ++ row ∷ []; next_id = t.next_id + 1 }))
      × (row.action ≡ action)
      × (row.result ≡ result)
      × (row.source_ip ≡ (client_source r).0)
      × (row.source_device ≡ (client_source r).1)

  record_event-Logged :
      (env : Answers) (r : Request) (action result id label : Text) (s : Server) (t : Table)
      → env.audit_works ≡ true
      → s.audit ≡ some t
      → Logged r action result t (record_event env r (event action result id label) s).audit
  unfolding record_event
  record_event-Logged env r action result id label s t works e = (
    row_of t.next_id (record (event action result id label) {
      time = env.logged_at;
      source_ip = (client_source r).0;
      source_device = (client_source r).1;
    }),
    log_ok _ env.audit_works s.audit t works e,
    refl,
    refl,
    refl,
    refl,
  )

  audit-authorize :
      (env : Answers) (r : Request) (s : Server) → (authorize d env r s).1.audit ≡ s.audit
  unfolding authorize
  audit-authorize env r s = refl

  open_door-Logged :
      (env : Answers) (r : Request) (door : Door) (g : Guest) (s : Server) (t : Table)
      → env.audit_works ≡ true
      → s.audit ≡ some t
      → Logged r
          (door_action door)
          (door_result (open_door d env r door g s).0.status)
          t
          (open_door d env r door g s).1.audit
  unfolding open_door
  open_door-Logged env r door g s t works e =
      if_both ByDoor g.demo _ _ (record_event-Logged env r _ _ _ _ s t works e) (
        if_both ByDoor env.opened _ _ (record_event-Logged env r _ _ _ _ _ t works e)
          (record_event-Logged env r _ _ _ _ _ t works e))
    where
      ByDoor : Response × Server → Type 0
      ByDoor x = Logged r (door_action door) (door_result x.0.status) t x.1.audit

  -- Every door request, refused or not, leaves one row in the audit log, where that works: it names
  -- the door, has the result that the response has, and says where the request came from.
  pub require_token-Logged :
      (env : Answers) (r : Request) (door : Door) (s : Server) (t : Table)
      → env.audit_works ≡ true
      → s.audit ≡ some t
      → Logged r
          (door_action door)
          (door_result (require_token d env r door s).0.status)
          t
          (require_token d env r door s).1.audit
  unfolding require_token
  require_token-Logged env r door s t works e = elim (Option-cases (authorize d env r s).0) [
    | inl none_in ↦
        rw (none_in, require_token)
          (record_event-Logged env r _ _ _ _ (authorize d env r s).1 t works
            (audit-authorize env r s ∙ e))
    | inr (g, let_in) ↦
        rw (let_in, require_token)
          (open_door-Logged env r door g (authorize d env r s).1 t works
            (audit-authorize env r s ∙ e))
  ]
