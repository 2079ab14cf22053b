-- ===== src/Guest/Api/Effects.antt =====
-- What a request does to the rest of the server: the audit log, and a guest who asks to be
-- forgotten.
use camonitor.Prelude.{
  ◌≡◌, ◌≢◌, ◌∙◌, refl, sym, ap, Bool, inl, inr, List, Option, none, some, arith, Bool-cases,
  Option-cases, All, Text,
}
use camonitor.Audit.{AuditStore}
use camonitor.Guest.Source.{Request}
use camonitor.Guest.Store.{
  Time, Sha256, Guest, GuestStore, Result, SaveOutcome, has_id, authenticate, revoke, enroll,
  enroll_demo,
}
use camonitor.Guest.Store.Calls.{Call, run}
use camonitor.Guest.Store.Find.{Once}
use camonitor.Guest.Store.Access.{Once-authenticate, IsFresh, revoke_lasts}
use camonitor.Guest.Api.{
  Door, Server, Answers, Response, record_event, bearer, authorize, open_door, require_token,
  forget_guest, forget, enroll_reply, enroll_handler, is_demo_code, demo_guest_label,
}

-- What there is to a handler's result beside the audit log.
abbrev pub outcome : Response × Server → Response × GuestStore × List Door
outcome (response, s) = (response, s.store, s.opens)

module _ (d : Sha256) (w : Bool) (a : AuditStore) where
  outcome-open_door :
      (env : Answers) (r : Request) (door : Door) (g : Guest) (s : Server)
      → outcome (open_door d (record env { audit_works = w }) r door g (record s { audit = a }))
        ≡ outcome (open_door d env r door g s)
  unfolding open_door record_event
  outcome-open_door env r door g s = ground arith

  outcome-require_token :
      (env : Answers) (r : Request) (door : Door) (s : Server)
      → outcome (require_token d (record env { audit_works = w }) r door (record s { audit = a }))
        ≡ outcome (require_token d env r door s)
  unfolding require_token authorize record_event
  outcome-require_token env r door s = elim (Option-cases (authorize d env r s).0) [
    | inl e ↦ rw (e, require_token) refl
    | inr (g, e) ↦ rw (e, require_token) (outcome-open_door env r door g (authorize d env r s).1)
  ]

  outcome-forget_guest :
      (env : Answers) (r : Request) (g : Guest) (s : Server)
      → outcome (forget_guest d (record env { audit_works = w }) r g (record s { audit = a }))
        ≡ outcome (forget_guest d env r g s)
  unfolding forget_guest record_event
  outcome-forget_guest env r g s = ground arith

  outcome-forget :
      (env : Answers) (r : Request) (s : Server)
      → outcome (forget d (record env { audit_works = w }) r (record s { audit = a }))
        ≡ outcome (forget d env r s)
  unfolding forget authorize record_event
  outcome-forget env r s = elim (Option-cases (authorize d env r s).0) [
    | inl e ↦ rw (e, forget) refl
    | inr (g, e) ↦ rw (e, forget) (outcome-forget_guest env r g (authorize d env r s).1)
  ]

  outcome-enroll_reply :
      (env : Answers) (r : Request) (x : Result (Text × Guest)) (s : Server)
      → outcome (enroll_reply d (record env { audit_works = w }) r x (record s { audit = a }))
        ≡ outcome (enroll_reply d env r x s)
  unfolding enroll_reply record_event
  outcome-enroll_reply env r x s = ground arith

  outcome-enroll_handler :
      (demo_code : Text) (env : Answers) (r : Request) (code id bytes : Option Text) (s : Server)
      → outcome (
          enroll_handler d demo_code
            (record env { audit_works = w })
            r
            code
            id
            bytes
            (record s { audit = a }))
        ≡ outcome (enroll_handler d demo_code env r code id bytes s)
  unfolding enroll_handler
  outcome-enroll_handler demo_code env r none id bytes s = refl
  outcome-enroll_handler demo_code env r (some code) id bytes s =
      elim (Bool-cases (is_demo_code d demo_code code)) [
        | inl e ↦
            rw (e, enroll_handler)
              (outcome-enroll_reply env r
                (enroll_demo d demo_guest_label id bytes env.now env.saved s.store).0
                (record s {
                  store = (enroll_demo d demo_guest_label id bytes env.now env.saved s.store).1;
                }))
        | inr e ↦
            rw (e, enroll_handler)
              (outcome-enroll_reply env r
                (enroll d code bytes env.now env.later env.saved s.store).0
                (record s { store = (enroll d code bytes env.now env.later env.saved s.store).1 }))
      ]

  -- Whatever the audit log holds and whether or not it works, a door request, a request to be
  -- forgotten and an enrolment get the same response, leave the same guests, in memory and on disk,
  -- and run the same door actions.
  pub audit_changes_nothing :
      (demo_code : Text) (env : Answers) (r : Request) (door : Door) (code id bytes : Option Text)
      (s : Server)
      → let env' = record env { audit_works = w } in
        let s' = record s { audit = a } in
        (outcome (require_token d env' r door s') ≡ outcome (require_token d env r door s))
        × (outcome (forget d env' r s') ≡ outcome (forget d env r s))
        × (outcome (enroll_handler d demo_code env' r code id bytes s')
            ≡ outcome (enroll_handler d demo_code env r code id bytes s))
  audit_changes_nothing demo_code env r door code id bytes s = (
    outcome-require_token env r door s,
    outcome-forget env r s,
    outcome-enroll_handler demo_code env r code id bytes s,
  )

module _ (d : Sha256) where
  forget_guest_done :
      (env : Answers) (r : Request) (g : Guest) (s : Server)
      → (forget_guest d env r g s).0.status ≡ 204
      → ((revoke g.id env.saved s.store).0 ≡ none)
        × ((forget_guest d env r g s).1.store ≡ (revoke g.id env.saved s.store).1)
  unfolding forget_guest record_event
  forget_guest_done env r g s h = (ground arith, ground arith)

  Once-authorize :
      (env : Answers) (r : Request) (s : Server) (id : Text)
      → Once (has_id id) s.store.guests
      → Once (has_id id) (authorize d env r s).1.store.guests
  unfolding authorize
  Once-authorize env r s id once =
      Once-authenticate d (bearer r).0 env.now env.seen_saved s.store id once

  -- A guest who asks to be forgotten and is told that it is done is out for good: where one record at
  -- most has the guest's id and no later record is given it, no token is let in under that id again,
  -- after any history with failed writes and restarts.
  pub forget_lasts :
      (env : Answers) (r : Request) (s : Server) (g : Guest) (cs : List Call) (token : Text)
      (now : Time) (out : SaveOutcome) (g' : Guest)
      → (authorize d env r s).0 ≡ some g
      → Once (has_id g.id) s.store.guests
      → (forget d env r s).0.status ≡ 204
      → All (IsFresh d g.id) cs
      → (authenticate d token now out (run d (forget d env r s).1.store cs)).0 ≡ some g'
      → g'.id ≢ g.id
  forget_lasts env r s g cs token now out g' let_in once done fresh again =
      let s1 = (authorize d env r s).1 in
      let eq = forget-eq env r s g let_in in
      let (gone, store) =
        forget_guest_done env r g s1 (ap (λ (x : Response × Server). x.0.status) (sym eq) ∙ done) in
      revoke_lasts d g.id env.saved s1.store cs token now out g' (Once-authorize env r s g.id once)
        gone fresh
        (ap (λ (x : GuestStore). (authenticate d token now out (run d x cs)).0)
            (sym (ap (λ (x : Response × Server). x.1.store) eq ∙ store))
          ∙ again)
    where
      forget-eq :
          (e : Answers) (q : Request) (t : Server) (h : Guest)
          → (authorize d e q t).0 ≡ some h
          → forget d e q t ≡ forget_guest d e q h (authorize d e q t).1
      forget-eq e q t h k = unfold forget in rw (k, forget)
