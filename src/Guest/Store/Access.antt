-- ===== src/Guest/Store/Access.antt =====
-- Who gets in: what `Authenticate` answers, and what a revocation and a used code are worth for the
-- rest of the store's history.
use mathlib.Core.List.{Memᴰ}
use camonitor.Prelude.{
  ◌≡◌, ◌≢◌, ◌∙◌, refl, sym, ap, true, false, inl, inr, List, Option, none, some, arith, if_both,
  Option-cases, All, All-map, All-Memᴰ, Text, text_eq-to, text_eq_of,
}
use camonitor.Encoding.{hex}
use camonitor.Guest.Store.{
  Time, Sha256, Guest, GuestRecord, GuestStore, SaveOutcome, saved, save, find, update_first,
  has_id, mark_revoked, mark_seen, created_record, demo_record, with_token, hash_secret, revoke,
  token_matches, authenticate,
}
use camonitor.Guest.Store.Calls.{Call, creates, enrolls_demo, run}
use camonitor.Guest.Store.Keeps.{Holds, IsStable, Admits, run-Holds, save_ok-Holds}
use camonitor.Guest.Store.Find.{Once, Once-update_first, find-some, All-update_first-Once}

guests-save : (out : SaveOutcome) (s : GuestStore) → (save out s).1.guests ≡ s.guests
unfolding save
guests-save saved s = refl
guests-save _ s = refl

module _ (d : Sha256) where
  token_matches-to :
      (token : Text) (r : GuestRecord)
      → token_matches d token r ≡ true
      → r.token_hash ≡ hash_secret d token
  unfolding token_matches
  token_matches-to token r h = text_eq-to r.token_hash (hash_secret d token) (ground arith)

  -- Whoever is let in holds the token of a record that is not revoked, and is answered with that
  -- record's guest, its last visit set to now; the records differ from before by that visit alone.
  pub authenticate_sound :
      (token : Text) (now : Time) (out : SaveOutcome) (s : GuestStore) (g : Guest)
      → (authenticate d token now out s).0 ≡ some g
      → (r : GuestRecord) × Memᴰ r s.guests
        × (r.token_hash ≡ hash_secret d token)
        × (r.revoked ≡ false)
        × (g ≡ (mark_seen now r).guest)
        × ((authenticate d token now out s).1.guests
            ≡ update_first (token_matches d token) (mark_seen now) s.guests)
  unfolding authenticate
  authenticate_sound token now out s g h =
      elim (Option-cases (find (token_matches d token) s.guests)) [
        | inl e ↦ absurd (ground (arith, e))
        | inr (r, e) ↦
            let (m, t) = find-some (token_matches d token) s.guests r e in
            (
              r,
              m,
              token_matches-to token r t,
              ground arith,
              ground arith,
              ground (
                arith,
                guests-save out (record s {
                  guests = update_first (token_matches d token) (mark_seen now) s.guests;
                }),
              ),
            )
      ]

  -- A visit changes no id.
  pub Once-authenticate :
      (token : Text) (now : Time) (out : SaveOutcome) (s : GuestStore) (id : Text)
      → Once (has_id id) s.guests
      → Once (has_id id) (authenticate d token now out s).1.guests
  unfolding authenticate
  Once-authenticate token now out s id once =
      elim (Option-cases (find (token_matches d token) s.guests)) [
        | inl e ↦ rw (e, authenticate) once
        | inr (r, e) ↦
            rw (e, authenticate)
              (if_both (λ (x : Option Guest × GuestStore). Once (has_id id) x.1.guests) r.revoked _
                _ once
                (rw guests-save (
                  Once-update_first (has_id id) (token_matches d token) (mark_seen now) (λ q. refl)
                    s.guests once)))
      ]

  -- The records of a guest are all revoked.
  abbrev pub IsOut : Text → GuestRecord → Type 0
  IsOut id r = has_id id r ≡ true → r.revoked ≡ true

  IsOut-stable : (id : Text) → IsStable d (IsOut id)
  unfolding with_token
  IsOut-stable id = record {
    revoked = λ r h e. refl;
    seen = λ now r h e. h e;
    token = λ token now r h e. h e;
  }

  -- No new record of the history has this id.
  abbrev pub IsFresh : Text → Call → Type 0
  IsFresh id (creates label (some new_id) code_bytes now out) = hex new_id ≢ id
  IsFresh id (enrolls_demo label (some new_id) token_bytes now out) = hex new_id ≢ id
  IsFresh id _ = Unit

  IsFresh-Admits : (id : Text) (c : Call) → IsFresh id c → Admits d (IsOut id) c
  unfolding created_record demo_record
  IsFresh-Admits id (creates label (some new_id) (some code_bytes) now out) f =
      λ e. absurd (f (text_eq-to (hex new_id) id e))
  IsFresh-Admits id (creates label (some new_id) none now out) f = tt
  IsFresh-Admits id (creates label none code_bytes now out) f = tt
  IsFresh-Admits id (enrolls_demo label (some new_id) (some token_bytes) now out) f =
      λ e. absurd (f (text_eq-to (hex new_id) id e))
  IsFresh-Admits id (enrolls_demo label (some new_id) none now out) f = tt
  IsFresh-Admits id (enrolls_demo label none token_bytes now out) f = tt
  IsFresh-Admits id _ f = tt

  revoke-Holds-IsOut :
      (id : Text) (out : SaveOutcome) (s : GuestStore)
      → Once (has_id id) s.guests
      → (revoke id out s).0 ≡ none
      → Holds (IsOut id) (revoke id out s).1
  unfolding revoke save
  revoke-Holds-IsOut id out s once h =
      let all =
        All-update_first-Once (has_id id) mark_revoked (IsOut id) s.guests once (λ r m e. refl)
          (λ r m e. absurd (cc)) in
      elim (Option-cases (find (has_id id) s.guests)) [
        | inl e ↦ absurd (ground (arith, e))
        | inr (r, e) ↦ rw (e, revoke) (save_ok-Holds (IsOut id) out _ (rw (e, revoke) at h) all)
      ]

  IsOut-authenticate :
      (id token : Text) (now : Time) (out : SaveOutcome) (s : GuestStore) (g : Guest)
      → All (IsOut id) s.guests
      → (authenticate d token now out s).0 ≡ some g
      → g.id ≢ id
  IsOut-authenticate id token now out s g h e same =
      let (r, m, _, live, eq, _) = authenticate_sound token now out s g e in
      cc (
        All-Memᴰ (IsOut id) s.guests r m h
            (text_eq_of r.id id (ap (λ (x : Guest). x.id) (sym eq) ∙ same)),
        live,
      )

  -- A revocation that is reported as done holds for good. Where one record at most has the id, and
  -- no later record is given it, no history of calls, with failed writes and restarts among them,
  -- lets anyone in under that id again, with whatever token.
  pub revoke_lasts :
      (id : Text) (out : SaveOutcome) (s : GuestStore) (cs : List Call) (token : Text) (now : Time)
      (out' : SaveOutcome) (g : Guest)
      → Once (has_id id) s.guests
      → (revoke id out s).0 ≡ none
      → All (IsFresh id) cs
      → (authenticate d token now out' (run d (revoke id out s).1 cs)).0 ≡ some g
      → g.id ≢ id
  revoke_lasts id out s cs token now out' g once done fresh e =
      IsOut-authenticate id token now out' _ g
        (run-Holds d (IsOut id) (IsOut-stable id) _ cs
          (All-map (IsFresh id) (Admits d (IsOut id)) cs (IsFresh-Admits id) fresh)
          (revoke-Holds-IsOut id out s once done)).memory
        e
