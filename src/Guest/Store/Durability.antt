-- ===== src/Guest/Store/Durability.antt =====
-- The file: what a method reported as saved survives a restart, and what a failed write leaves.
use camonitor.Prelude.{
  ◌≡◌, ◌∙◌, refl, sym, ap, true, inl, inr, Option, none, some, arith, Option-cases, Text,
}
use camonitor.Guest.Store.{
  Time, Sha256, Guest, GuestRecord, GuestStore, Error, Result, ok, err, SaveOutcome, saved,
  marshal_failed, write_failed, rename_failed, save, append_guest, find, has_id, create, revoke,
  enroll_record, enroll, enroll_demo, open_guest_store,
}
use camonitor.Guest.Store.Calls.{
  Call, creates, revokes, enrolls, enrolls_demo, authenticates, restarts, step, is_ok, is_none,
  reports_saved,
}
use camonitor.Guest.Store.Keeps.{drop_last-append}
use camonitor.Guest.Store.Codes.{enroll_ok}

-- The file holds what is in memory.
abbrev IsSynced : GuestStore → Type 0
IsSynced s = s.file ≡ some s.guests

open-IsSynced : (s : GuestStore) → IsSynced s → open_guest_store s.file ≡ s
unfolding open_guest_store
open-IsSynced s h = ground arith

save_ok-IsSynced :
    (out : SaveOutcome) (s : GuestStore) → (save out s).0 ≡ none → IsSynced (save out s).1
unfolding save
save_ok-IsSynced saved s h = refl
save_ok-IsSynced marshal_failed s h = absurd (cc)
save_ok-IsSynced write_failed s h = absurd (cc)
save_ok-IsSynced rename_failed s h = absurd (cc)

append_guest_ok-IsSynced :
    {A : Type 0} (r : GuestRecord) (a : A) (out : SaveOutcome) (s : GuestStore) (x : A)
    → (append_guest r a out s).0 ≡ ok x
    → IsSynced (append_guest r a out s).1
unfolding append_guest save
append_guest_ok-IsSynced r a saved s x h = refl
append_guest_ok-IsSynced r a marshal_failed s x h = absurd (cc)
append_guest_ok-IsSynced r a write_failed s x h = absurd (cc)
append_guest_ok-IsSynced r a rename_failed s x h = absurd (cc)

append_guest_err :
    {A : Type 0} (r : GuestRecord) (a : A) (out : SaveOutcome) (s : GuestStore) (e : Error)
    → (append_guest r a out s).0 ≡ err e
    → (append_guest r a out s).1 ≡ s
unfolding append_guest save
append_guest_err r a saved s e h = absurd (cc)
append_guest_err r a marshal_failed s e h =
    ap (λ g. record s { guests = g }) (drop_last-append s.guests r)
append_guest_err r a write_failed s e h =
    ap (λ g. record s { guests = g }) (drop_last-append s.guests r)
append_guest_err r a rename_failed s e h =
    ap (λ g. record s { guests = g }) (drop_last-append s.guests r)

module _ (d : Sha256) where
  create-cases :
      (s : GuestStore) (label : Text) (id code_bytes : Option Text) (now : Time) (out : SaveOutcome)
      (x : Guest × Text)
      → (create d label id code_bytes now out s).0 ≡ ok x
      → IsSynced (create d label id code_bytes now out s).1
  unfolding create
  create-cases s label (some id) (some code_bytes) now out x h =
      append_guest_ok-IsSynced _ _ out s x h
  create-cases s label (some id) none now out x h = absurd (cc)
  create-cases s label none code_bytes now out x h = absurd (cc)

  enroll_demo-cases :
      (s : GuestStore) (label : Text) (id token_bytes : Option Text) (now : Time)
      (out : SaveOutcome) (x : Text × Guest)
      → (enroll_demo d label id token_bytes now out s).0 ≡ ok x
      → IsSynced (enroll_demo d label id token_bytes now out s).1
  unfolding enroll_demo
  enroll_demo-cases s label (some id) (some token_bytes) now out x h =
      append_guest_ok-IsSynced _ _ out s x h
  enroll_demo-cases s label (some id) none now out x h = absurd (cc)
  enroll_demo-cases s label none token_bytes now out x h = absurd (cc)

  enroll_record-IsSynced :
      (code : Text) (token_bytes : Option Text) (later : Time) (out : SaveOutcome) (r : GuestRecord)
      (s : GuestStore) (x : Text × Guest)
      → (enroll_record d code token_bytes later out r s).0 ≡ ok x
      → IsSynced (enroll_record d code token_bytes later out r s).1
  unfolding enroll_record save
  enroll_record-IsSynced code none later out r s x h = absurd (cc)
  enroll_record-IsSynced code (some bytes) later saved r s x h = refl
  enroll_record-IsSynced code (some bytes) later marshal_failed r s x h = absurd (cc)
  enroll_record-IsSynced code (some bytes) later write_failed r s x h = absurd (cc)
  enroll_record-IsSynced code (some bytes) later rename_failed r s x h = absurd (cc)

  revoke-IsSynced :
      (id : Text) (out : SaveOutcome) (s : GuestStore)
      → (revoke id out s).0 ≡ none
      → IsSynced (revoke id out s).1
  unfolding revoke
  revoke-IsSynced id out s h = elim (Option-cases (find (has_id id) s.guests)) [
    | inl e ↦ absurd (ground (arith, e))
    | inr (r, e) ↦ rw (e, revoke) (save_ok-IsSynced out _ (rw (e, revoke) at h))
  ]

  is_ok-to : {A : Type 0} (x : Result A) → is_ok x ≡ true → (a : A) × (x ≡ ok a)
  is_ok-to (ok a) h = (a, refl)
  is_ok-to (err e) h = absurd (cc)

  is_none-to : (x : Option Error) → is_none x ≡ true → x ≡ none
  is_none-to none h = refl
  is_none-to (some e) h = absurd (cc)

  enroll-IsSynced :
      (s : GuestStore) (code : Text) (token_bytes : Option Text) (now later : Time)
      (out : SaveOutcome) (x : Text × Guest)
      → (enroll d code token_bytes now later out s).0 ≡ ok x
      → IsSynced (enroll d code token_bytes now later out s).1
  enroll-IsSynced s code token_bytes now later out x h =
      let (r, _, _, _, eq) = enroll_ok d code token_bytes now later out s h in
      rw eq (
        enroll_record-IsSynced code token_bytes later out r s x
          (ap (λ (y : Result (Text × Guest) × GuestStore). y.0) (sym eq) ∙ h))

  saved-IsSynced : (s : GuestStore) (c : Call) → reports_saved d s c ≡ true → IsSynced (step d s c)
  unfolding reports_saved step
  saved-IsSynced s (creates label id code_bytes now out) h =
      let (x, e) = is_ok-to (create d label id code_bytes now out s).0 h in
      create-cases s label id code_bytes now out x e
  saved-IsSynced s (revokes id out) h = revoke-IsSynced id out s (is_none-to (revoke id out s).0 h)
  saved-IsSynced s (enrolls code token_bytes now later out) h =
      let (x, e) = is_ok-to (enroll d code token_bytes now later out s).0 h in
      enroll-IsSynced s code token_bytes now later out x e
  saved-IsSynced s (enrolls_demo label id token_bytes now out) h =
      let (x, e) = is_ok-to (enroll_demo d label id token_bytes now out s).0 h in
      enroll_demo-cases s label id token_bytes now out x e
  saved-IsSynced s (authenticates token now out) h = absurd (cc)
  saved-IsSynced s restarts h = absurd (cc)

  -- A change that a method reported as made survives a restart: the server then opens the very store
  -- that it had.
  pub saved_survives_restart :
      (s : GuestStore) (c : Call)
      → reports_saved d s c ≡ true
      → step d (step d s c) restarts ≡ step d s c
  unfolding step
  saved_survives_restart s c h = open-IsSynced (step d s c) (saved-IsSynced s c h)

  -- `Create` that fails, for want of random bytes or by the write, leaves the store as it was, in
  -- memory and on disk.
  pub create_err_unchanged :
      (s : GuestStore) (label : Text) (id code_bytes : Option Text) (now : Time) (out : SaveOutcome)
      (e : Error)
      → (create d label id code_bytes now out s).0 ≡ err e
      → (create d label id code_bytes now out s).1 ≡ s
  unfolding create
  create_err_unchanged s label (some id) (some code_bytes) now out e h =
      append_guest_err _ _ out s e h
  create_err_unchanged s label (some id) none now out e h = refl
  create_err_unchanged s label none code_bytes now out e h = refl

  -- `EnrollDemo` that fails leaves the store as it was, in the same way.
  pub enroll_demo_err_unchanged :
      (s : GuestStore) (label : Text) (id token_bytes : Option Text) (now : Time)
      (out : SaveOutcome) (e : Error)
      → (enroll_demo d label id token_bytes now out s).0 ≡ err e
      → (enroll_demo d label id token_bytes now out s).1 ≡ s
  unfolding enroll_demo
  enroll_demo_err_unchanged s label (some id) (some token_bytes) now out e h =
      append_guest_err _ _ out s e h
  enroll_demo_err_unchanged s label (some id) none now out e h = refl
  enroll_demo_err_unchanged s label none token_bytes now out e h = refl
