-- ===== src/Guest/Store/Invite.antt =====
-- From the invitation of a guest to the first authentication.
use camonitor.Prelude.{
  ◌+◌, ◌≤◌, ◌≡◌, refl, ap, true, false, List, [], ◌∷◌, ◌++◌, Option, some, arith, All, Text,
  text_eq_refl,
}
use camonitor.Encoding.{hex, base64_raw_url}
use camonitor.Guest.Store.{
  Time, Sha256, Guest, GuestRecord, GuestStore, Result, ok, SaveOutcome, saved, save, mark_seen,
  created_record, enroll_code, enroll_code_ttl, with_token, hash_secret, hash_equal, code_matches,
  token_matches, append_guest, create, enroll_record, enroll, authenticate,
}
use camonitor.Guest.Store.Codes.{hash_secret-ne-nil, IsUnused}
use camonitor.Guest.Store.Find.{find-append, update_first-append}

module _ (d : Sha256) where
  -- A record that nobody has enrolled with yet, at the end of the store.
  code_matches-created :
      (id label code : Text) (now : Time)
      → code_matches d code (created_record d id label code now) ≡ true
  unfolding created_record code_matches hash_equal
  code_matches-created id label code now =
      ground (arith, hash_secret-ne-nil d code, text_eq_refl (hash_secret d code))

  token_matches-with_token :
      (token : Text) (now : Time) (r : GuestRecord)
      → token_matches d token (with_token d token now r) ≡ true
  unfolding with_token token_matches hash_equal
  token_matches-with_token token now r =
      ground (arith, hash_secret-ne-nil d token, text_eq_refl (hash_secret d token))

  enroll_last :
      (code bytes : Text) (now later : Time) (gs : List GuestRecord)
      (file : Option (List GuestRecord)) (r : GuestRecord)
      → All (IsUnused d code) gs
      → code_matches d code r ≡ true
      → r.revoked ≡ false
      → now ≤ r.code_expiry
      → let token = base64_raw_url bytes in
        let gs' = gs ++ with_token d token later r ∷ [] in
        enroll d code (some bytes) now later saved (record { guests = gs ++ r ∷ []; file = file })
        ≡ (ok (token, (with_token d token later r).guest), record { guests = gs'; file = some gs' })
  unfolding enroll enroll_record save
  enroll_last code bytes now later gs file r h m live fresh =
      rw (find-append (code_matches d code) gs r h m, enroll)
        (rw
          (update_first-append (code_matches d code) (with_token d (base64_raw_url bytes) later) gs
            r h m)
          (ground arith))

  authenticate_last :
      (token : Text) (now : Time) (out : SaveOutcome) (gs : List GuestRecord)
      (file : Option (List GuestRecord)) (r : GuestRecord)
      → All (λ q. token_matches d token q ≡ false) gs
      → token_matches d token r ≡ true
      → r.revoked ≡ false
      → (authenticate d token now out (record { guests = gs ++ r ∷ []; file = file })).0
        ≡ some (mark_seen now r).guest
  unfolding authenticate
  authenticate_last token now out gs file r h m live =
      rw (find-append (token_matches d token) gs r h m, authenticate) (ground arith)

  -- The way in, from the invitation to the door: a new guest's code, used within ten minutes of its
  -- making (the tenth minute's end included), gives a token with which the guest is let in, under the id and label of the
  -- invitation and not as a demo guest. It is assumed that the writes succeed and that neither the
  -- code nor the token has the hash of an older one.
  pub invited_guest_enters :
      (label id code_bytes token_bytes : Text) (t0 now later t1 : Time) (out : SaveOutcome)
      (s : GuestStore)
      → now ≤ t0 + enroll_code_ttl
      → All (IsUnused d (enroll_code code_bytes)) s.guests
      → All (λ r. token_matches d (base64_raw_url token_bytes) r ≡ false) s.guests
      → let code = enroll_code code_bytes in
        let token = base64_raw_url token_bytes in
        let invited = record (created_record d (hex id) label code t0).guest { enrolled = true } in
        let made = create d label (some id) (some code_bytes) t0 saved s in
        let entered = enroll d code (some token_bytes) now later saved made.1 in
        (made.0 ≡ ok ((created_record d (hex id) label code t0).guest, code))
        × (entered.0 ≡ ok (token, record invited { last_seen = later }))
        × ((authenticate d token t1 out entered.1).0 ≡ some (record invited { last_seen = t1 }))
  unfolding create append_guest save created_record with_token
  invited_guest_enters label id code_bytes token_bytes t0 now later t1 out s h codes tokens =
      let made = created_record d (hex id) label (enroll_code code_bytes) t0 in
      let token = base64_raw_url token_bytes in
      let last =
        enroll_last (enroll_code code_bytes) token_bytes now later s.guests
          (some (s.guests ++ made ∷ [])) made codes
          (code_matches-created (hex id) label (enroll_code code_bytes) t0) refl h in
      (
        refl,
        ap (λ (x : Result (Text × Guest) × GuestStore). x.0) last,
        rw last (
            authenticate_last token t1 out s.guests _ (with_token d token later made) tokens
              (token_matches-with_token token later made) refl),
      )
