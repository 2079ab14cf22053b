-- ===== src/Guest/Store/Codes.antt =====
-- Enrolment codes: good once, within their time, and what a failed write does to them.
use camonitor.Prelude.{
  ◌<◌, ◌≤◌, ◌≡◌, ◌≢◌, ◌∙◌, refl, sym, ap, false, inl, inr, List, [], ◌∷◌, Option, none, some, arith,
  Option-cases, All, All-map, Text, text_eq-to, is_empty, length,
}
use camonitor.Encoding.{hex, base64_raw_url, length-hex}
use camonitor.Guest.Store.{
  Time, Sha256, Guest, GuestRecord, GuestStore, Result, ok, err, enroll_invalid, SaveOutcome, saved,
  marshal_failed, write_failed, rename_failed, save, find, created_record, enroll_code, demo_record,
  with_token, hash_secret, hash_equal, code_matches, enroll_record, enroll,
}
use camonitor.Guest.Store.Calls.{Call, creates, enrolls_demo, run}
use camonitor.Guest.Store.Keeps.{Holds, IsStable, Admits, run-Holds}
use camonitor.Guest.Store.Find.{Once, find-none, All-update_first-Once}

module _ (d : Sha256) where
  pub hash_secret-ne-nil : (secret : Text) → is_empty (hash_secret d secret) ≡ false
  unfolding hash_secret
  hash_secret-ne-nil secret =
      not_empty (hex (d.sum secret)) (omega (arith, length-hex (d.sum secret), d.length-sum secret))
    where
      not_empty : (t : Text) → 0 < length t → is_empty t ≡ false
      not_empty [] h = elim h [ ]
      not_empty (c ∷ t) h = refl

  -- The code opens no record.
  abbrev pub IsUnused : Text → GuestRecord → Type 0
  IsUnused code r = code_matches d code r ≡ false

  IsUnused-stable : (code : Text) → IsStable d (IsUnused code)
  unfolding with_token code_matches
  IsUnused-stable code = record {
    revoked = λ r h. h;
    seen = λ now r h. h;
    token = λ token now r h. refl;
  }

  -- No later code has the hash of this one.
  abbrev pub HasOtherCode : Text → Call → Type 0
  HasOtherCode code (creates label id (some code_bytes) now out) =
      hash_secret d (enroll_code code_bytes) ≢ hash_secret d code
  HasOtherCode code _ = Unit

  HasOtherCode-Admits : (code : Text) (c : Call) → HasOtherCode code c → Admits d (IsUnused code) c
  unfolding created_record demo_record code_matches hash_equal
  HasOtherCode-Admits code (creates label (some id) (some code_bytes) now out) f = ground (
    arith,
    text_eq-to (hash_secret d (enroll_code code_bytes)) (hash_secret d code),
    hash_secret-ne-nil (enroll_code code_bytes),
  )
  HasOtherCode-Admits code (creates label (some id) none now out) f = tt
  HasOtherCode-Admits code (creates label none code_bytes now out) f = tt
  HasOtherCode-Admits code (enrolls_demo label (some id) (some token_bytes) now out) f = refl
  HasOtherCode-Admits code (enrolls_demo label (some id) none now out) f = tt
  HasOtherCode-Admits code (enrolls_demo label none token_bytes now out) f = tt
  HasOtherCode-Admits code _ f = tt

  pub enroll-unused :
      (code : Text) (token_bytes : Option Text) (now later : Time) (out : SaveOutcome)
      (s : GuestStore)
      → All (IsUnused code) s.guests
      → enroll d code token_bytes now later out s ≡ (err enroll_invalid, s)
  unfolding enroll
  enroll-unused code token_bytes now later out s h =
      rw (find-none (code_matches d code) s.guests h, enroll)

  enroll_record-Holds-IsUnused :
      (code : Text) (token_bytes : Option Text) (later : Time) (out : SaveOutcome) (r : GuestRecord)
      (s : GuestStore) {t : Text × Guest}
      → Once (code_matches d code) s.guests
      → (enroll_record d code token_bytes later out r s).0 ≡ ok t
      → Holds (IsUnused code) (enroll_record d code token_bytes later out r s).1
  unfolding enroll_record save
  enroll_record-Holds-IsUnused code none later out r s once h = absurd (cc)
  enroll_record-Holds-IsUnused code (some bytes) later saved r s once h =
      let all =
        All-update_first-Once (code_matches d code) (with_token d (base64_raw_url bytes) later)
          (IsUnused code) s.guests once (λ q m. unfold with_token code_matches in refl)
          (λ q m. m) in
      record { memory = all; disk = all }
  enroll_record-Holds-IsUnused code (some bytes) later marshal_failed r s once h = absurd (cc)
  enroll_record-Holds-IsUnused code (some bytes) later write_failed r s once h = absurd (cc)
  enroll_record-Holds-IsUnused code (some bytes) later rename_failed r s once h = absurd (cc)

  -- A success comes from a record that has the code, is not revoked and is not past its time.
  pub enroll_ok :
      (code : Text) (token_bytes : Option Text) (now later : Time) (out : SaveOutcome)
      (s : GuestStore) {t : Text × Guest}
      → (enroll d code token_bytes now later out s).0 ≡ ok t
      → (r : GuestRecord) × (find (code_matches d code) s.guests ≡ some r)
        × (r.revoked ≡ false)
        × (now ≤ r.code_expiry)
        × (enroll d code token_bytes now later out s
            ≡ enroll_record d code token_bytes later out r s)
  unfolding enroll
  enroll_ok code token_bytes now later out s {t} h =
      elim (Option-cases (find (code_matches d code) s.guests)) [
        | inl e ↦ absurd (ground (arith, e))
        | inr (r, e) ↦ (r, e, ground arith, ground arith, ground arith)
      ]

  -- A code is good for one enrolment. Once it has been exchanged for a token, where one record at
  -- most had it and no later code has its hash, no history of calls, with failed writes and restarts
  -- among them, makes it valid again: the answer is `enroll_invalid`, and the store stays as it is.
  pub enroll_spent_code :
      (code : Text) (token_bytes : Option Text) (now later : Time) (out : SaveOutcome)
      (s : GuestStore) (t : Text × Guest) (cs : List Call) (again : Option Text)
      (now' later' : Time) (out' : SaveOutcome)
      → Once (code_matches d code) s.guests
      → (enroll d code token_bytes now later out s).0 ≡ ok t
      → All (HasOtherCode code) cs
      → let s' = run d (enroll d code token_bytes now later out s).1 cs in
        enroll d code again now' later' out' s' ≡ (err enroll_invalid, s')
  enroll_spent_code code token_bytes now later out s t cs again now' later' out' once h other =
      let (r, _, _, _, e) = enroll_ok code token_bytes now later out s h in
      enroll-unused code again now' later' out' _
        (run-Holds d (IsUnused code) (IsUnused-stable code) _ cs
          (All-map (HasOtherCode code) (Admits d (IsUnused code)) cs (HasOtherCode-Admits code)
            other)
          (rw e (
            enroll_record-Holds-IsUnused code token_bytes later out r s once
              (ap (λ (x : Result (Text × Guest) × GuestStore). x.0) (sym e) ∙ h)))).memory
