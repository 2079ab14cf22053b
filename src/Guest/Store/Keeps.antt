-- ===== src/Guest/Store/Keeps.antt =====
-- A property of single records that every write of the store keeps holds of all its records, in
-- memory and in the file, through any history.
use camonitor.Prelude.{
  ◌-◌, ◌≡◌, ◌∙◌, refl, ap, Bool, inl, inr, List, [], ◌∷◌, ◌++◌, Option, none, some, arith, ltb,
  if_both, Option-cases, length, take, length-append, All, All-append, Text,
}
use camonitor.Encoding.{hex, base64_raw_url}
use camonitor.Guest.Store.{
  Time, Sha256, Guest, GuestRecord, GuestStore, Result, SaveOutcome, saved, marshal_failed,
  write_failed, rename_failed, save, save_result, drop_last, append_guest, find, update_first,
  has_id, mark_revoked, mark_seen, open_guest_store, created_record, enroll_code, demo_record,
  with_token, create, revoke, code_matches, enroll_record, enroll, enroll_demo, token_matches,
  authenticate,
}
use camonitor.Guest.Store.Calls.{
  Call, creates, revokes, enrolls, enrolls_demo, authenticates, restarts, step, run,
}

pub take-length-append {ℓ} : {A : Type ℓ} (xs ys : List A) → take (length xs) (xs ++ ys) ≡ xs
take-length-append [] ys = refl
take-length-append (x ∷ xs) ys = ap (◌∷◌ x) (take-length-append xs ys)

pub drop_last-append : (gs : List GuestRecord) (r : GuestRecord) → drop_last (gs ++ r ∷ []) ≡ gs
drop_last-append gs r =
    let e : length (gs ++ r ∷ []) - 1 ≡ length gs = omega (arith, length-append gs (r ∷ [])) in
    ap (λ n. take n (gs ++ r ∷ [])) e ∙ take-length-append gs (r ∷ [])

module _ (P : GuestRecord → Type 0) where
  abbrev pub AllFile : Option (List GuestRecord) → Type 0
  AllFile none = Unit
  AllFile (some gs) = All P gs

  pub record Holds (s : GuestStore) : Type 0 where
    pub memory : All P s.guests
    pub disk : AllFile s.file

  All-update_first :
      (match : GuestRecord → Bool) (f : GuestRecord → GuestRecord) (gs : List GuestRecord)
      → ((r : GuestRecord) → P r → P (f r))
      → All P gs
      → All P (update_first match f gs)
  unfolding update_first
  All-update_first match f [] keep h = tt
  All-update_first match f (r ∷ rs) keep h =
      ground (arith, keep r h.0, All-update_first match f rs keep h.1)

  save-Holds : (out : SaveOutcome) (s : GuestStore) → Holds s → Holds (save out s).1
  unfolding save
  save-Holds saved s h = record { memory = h.memory; disk = h.memory }
  save-Holds _ s h = h

  -- A write that succeeds makes the file what is in memory.
  pub save_ok-Holds :
      (out : SaveOutcome) (s : GuestStore)
      → (save out s).0 ≡ none
      → All P s.guests
      → Holds (save out s).1
  unfolding save
  save_ok-Holds saved s e h = record { memory = h; disk = h }
  save_ok-Holds marshal_failed s e h = absurd (cc)
  save_ok-Holds write_failed s e h = absurd (cc)
  save_ok-Holds rename_failed s e h = absurd (cc)

  append_guest-Holds :
      {A : Type 0} (rec : GuestRecord) (a : A) (out : SaveOutcome) (s : GuestStore)
      → P rec
      → Holds s
      → Holds (append_guest rec a out s).1
  unfolding append_guest
  append_guest-Holds rec a saved s p h =
      let all = All-append P s.guests (rec ∷ []) h.memory (p, tt) in
      record { memory = all; disk = all }
  append_guest-Holds rec a marshal_failed s p h = record {
    memory = rw (drop_last-append s.guests rec) h.memory;
    disk = h.disk;
  }
  append_guest-Holds rec a write_failed s p h = record {
    memory = rw (drop_last-append s.guests rec) h.memory;
    disk = h.disk;
  }
  append_guest-Holds rec a rename_failed s p h = record {
    memory = rw (drop_last-append s.guests rec) h.memory;
    disk = h.disk;
  }

  Holds-open : (s : GuestStore) → Holds s → Holds (open_guest_store s.file)
  unfolding open_guest_store
  Holds-open s h = from_file s.file h.disk
    where
      from_file : (f : Option (List GuestRecord)) → AllFile f → Holds (open_guest_store f)
      from_file none a = record { memory = tt; disk = tt }
      from_file (some gs) a = record { memory = a; disk = a }

-- What the store's methods may do to a record.
pub record IsStable (d : Sha256) (P : GuestRecord → Type 0) : Type 0 where
  pub revoked : (r : GuestRecord) → P r → P (mark_revoked r)
  pub seen : (now : Time) (r : GuestRecord) → P r → P (mark_seen now r)
  pub token : (token : Text) (now : Time) (r : GuestRecord) → P r → P (with_token d token now r)

-- The new records of a call have the property.
abbrev pub Admits : Sha256 → (GuestRecord → Type 0) → Call → Type 0
Admits d P (creates label (some id) (some code_bytes) now out) =
    P (created_record d (hex id) label (enroll_code code_bytes) now)
Admits d P (enrolls_demo label (some id) (some token_bytes) now out) =
    P (demo_record d (hex id) label (base64_raw_url token_bytes) now)
Admits d P _ = Unit

module _ (d : Sha256) (P : GuestRecord → Type 0) (stable : IsStable d P) where
  revoke-Holds :
      (id : Text) (out : SaveOutcome) (s : GuestStore) → Holds P s → Holds P (revoke id out s).1
  unfolding revoke
  revoke-Holds id out s h = elim (Option-cases (find (has_id id) s.guests)) [
    | inl e ↦ rw (e, revoke) h
    | inr (r, e) ↦
        rw (e, revoke)
          (save-Holds P out _ (record {
            memory = All-update_first P (has_id id) mark_revoked s.guests stable.revoked h.memory;
            disk = h.disk;
          }))
  ]

  authenticate-Holds :
      (token : Text) (now : Time) (out : SaveOutcome) (s : GuestStore)
      → Holds P s
      → Holds P (authenticate d token now out s).1
  unfolding authenticate
  authenticate-Holds token now out s h =
      elim (Option-cases (find (token_matches d token) s.guests)) [
        | inl e ↦ rw (e, authenticate) h
        | inr (r, e) ↦
            rw (e, authenticate)
              (if_both (λ (x : Option Guest × GuestStore). Holds P x.1) r.revoked _ _ h
                (save-Holds P out _ (record {
                  memory =
                      All-update_first P (token_matches d token) (mark_seen now) s.guests
                        (stable.seen now) h.memory;
                  disk = h.disk;
                })))
      ]

  save_result-Holds :
      {A : Type 0} (a : A) (out : SaveOutcome) (s : GuestStore)
      → Holds P s
      → Holds P (save_result a (save out s)).1
  unfolding save
  save_result-Holds a saved s h = record { memory = h.memory; disk = h.memory }
  save_result-Holds a marshal_failed s h = h
  save_result-Holds a write_failed s h = h
  save_result-Holds a rename_failed s h = h

  enroll_record-Holds :
      (code : Text) (token_bytes : Option Text) (later : Time) (out : SaveOutcome) (r : GuestRecord)
      (s : GuestStore)
      → Holds P s
      → Holds P (enroll_record d code token_bytes later out r s).1
  unfolding enroll_record
  enroll_record-Holds code none later out r s h = h
  enroll_record-Holds code (some bytes) later out r s h = save_result-Holds _ out _ (record {
    memory =
        All-update_first P (code_matches d code) (with_token d (base64_raw_url bytes) later)
          s.guests (stable.token (base64_raw_url bytes) later) h.memory;
    disk = h.disk;
  })

  enroll-Holds :
      (code : Text) (token_bytes : Option Text) (now later : Time) (out : SaveOutcome)
      (s : GuestStore)
      → Holds P s
      → Holds P (enroll d code token_bytes now later out s).1
  unfolding enroll
  enroll-Holds code token_bytes now later out s h =
      elim (Option-cases (find (code_matches d code) s.guests)) [
        | inl e ↦ rw (e, enroll) h
        | inr (r, e) ↦
            rw (e, enroll)
              (if_both (λ (x : Result (Text × Guest) × GuestStore). Holds P x.1) r.revoked _ _ h
                (if_both (λ (x : Result (Text × Guest) × GuestStore). Holds P x.1)
                  (ltb r.code_expiry now) _ _ h
                  (enroll_record-Holds code token_bytes later out r s h)))
      ]

  step-Holds : (s : GuestStore) (c : Call) → Admits d P c → Holds P s → Holds P (step d s c)
  unfolding step create enroll_demo
  step-Holds s (creates label (some id) (some code_bytes) now out) a h =
      append_guest-Holds P _ _ out s a h
  step-Holds s (creates label (some id) none now out) a h = h
  step-Holds s (creates label none code_bytes now out) a h = h
  step-Holds s (revokes id out) a h = revoke-Holds id out s h
  step-Holds s (enrolls code token_bytes now later out) a h =
      enroll-Holds code token_bytes now later out s h
  step-Holds s (enrolls_demo label (some id) (some token_bytes) now out) a h =
      append_guest-Holds P _ _ out s a h
  step-Holds s (enrolls_demo label (some id) none now out) a h = h
  step-Holds s (enrolls_demo label none token_bytes now out) a h = h
  step-Holds s (authenticates token now out) a h = authenticate-Holds token now out s h
  step-Holds s restarts a h = Holds-open P s h

  pub run-Holds :
      (s : GuestStore) (cs : List Call) → All (Admits d P) cs → Holds P s → Holds P (run d s cs)
  unfolding run
  run-Holds s [] a h = h
  run-Holds s (c ∷ cs) a h = run-Holds (step d s c) cs a.1 (step-Holds s c a.0 h)
