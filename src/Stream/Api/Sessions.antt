-- ===== src/Stream/Api/Sessions.antt =====
-- What a session is worth, who gets one, and how often one is logged.
use mathlib.Core.List.{Memᴰ}
use camonitor.Prelude.{
  ℕ, ◌+◌, ◌≤◌, ◌≡◌, ◌∙◌, refl, sym, ap, Bool, true, false, inl, inr, List, [], ◌∷◌, ◌++◌, none,
  some, arith, ltb, leb, if◌then◌else◌, Bool-cases, Option-cases, Text, codes, text_eq, text_eq_iff,
  Map, lookup, put, lookup-put, lookup-put_self, cut_prefix, append-cut_prefix,
}
use camonitor.Clock.{Time, since, unix}
use camonitor.Decimal.{max_int64}
use camonitor.Guest.Source.{Request}
use camonitor.Guest.Store.{Sha256, Guest, GuestRecord, hash_secret, authenticate}
use camonitor.Guest.Store.Access.{authenticate_sound}
use camonitor.Stream.Sign.{Hmac, sign_stream, verify_stream}
use camonitor.Stream.Sign.Tokens.{verify-sign}
use camonitor.Stream.Playlist.{query_escape}
use camonitor.Stream.Api.{
  StreamApi, Readings, session_key, logged_recently, should_log_session, stream_session_ttl,
  session_url, open_session, session, log_session, record_session, identify, SessionReply,
}

-- The calls of `shouldLogSession` one after the other.
pub record SessionCall : Type 0 where
  pub guest_id : Text
  pub camera : Text
  pub now : Time

unfoldable pub run_sessions : List SessionCall → Map Time → Map Time
run_sessions [] m = m
run_sessions (c ∷ cs) m = run_sessions cs (should_log_session c.guest_id c.camera c.now m).1

-- The key was logged at `t` or later.
LoggedSince : Text → Time → Map Time → Type 0
LoggedSince key t m = (last : Time) × (lookup key m ≡ some last) × (t ≤ last)

logs_apart :
    (guest_id camera : Text) (t now : Time) (m : Map Time)
    → LoggedSince (session_key guest_id camera) t m
    → (should_log_session guest_id camera now m).0 ≡ true
    → t + stream_session_ttl ≤ now
unfolding LoggedSince should_log_session
logs_apart guest_id camera t now m (last, e, le) h =
    let r : logged_recently now (lookup (session_key guest_id camera) m) ≡ false = ground arith in
    let f : ltb (since now last) stream_session_ttl ≡ false = rw e at r in ground arith

put_logged :
    (key : Text) (t : Time) (k : Text) (now : Time) (m : Map Time)
    → logged_recently now (lookup k m) ≡ false
    → LoggedSince key t m
    → LoggedSince key t (put k now m)
unfolding LoggedSince
put_logged key t k now m r (last, e, le) = elim (Bool-cases (text_eq k key)) [
  | inl hit ↦
      let same : k ≡ key = (text_eq_iff k key).0 hit in
      let f : ltb (since now last) stream_session_ttl ≡ false = rw (same, e) at r in
      (now, ground (arith, lookup-put k key now m), ground arith)
  | inr miss ↦ (last, ground (arith, lookup-put k key now m), le)
]

keeps_logged :
    (key : Text) (t : Time) (c : SessionCall) (m : Map Time)
    → LoggedSince key t m
    → LoggedSince key t (should_log_session c.guest_id c.camera c.now m).1
unfolding should_log_session
keeps_logged key t c m s =
    kept (logged_recently c.now (lookup (session_key c.guest_id c.camera) m)) refl
  where
    kept :
        (b : Bool)
        → logged_recently c.now (lookup (session_key c.guest_id c.camera) m) ≡ b
        → LoggedSince key t
            (if◌then◌else◌ {A = Bool × Map Time} b
              (false, m)
              (true, put (session_key c.guest_id c.camera) c.now m)).1
    kept true e = s
    kept false e = put_logged key t (session_key c.guest_id c.camera) c.now m e s

run_keeps_logged :
    (key : Text) (t : Time) (cs : List SessionCall) (m : Map Time)
    → LoggedSince key t m
    → LoggedSince key t (run_sessions cs m)
unfolding run_sessions
run_keeps_logged key t [] m s = s
run_keeps_logged key t (c ∷ cs) m s =
    run_keeps_logged key t cs (should_log_session c.guest_id c.camera c.now m).1
      (keeps_logged key t c m s)

logged_now :
    (guest_id camera : Text) (t : Time) (m : Map Time)
    → (should_log_session guest_id camera t m).0 ≡ true
    → LoggedSince (session_key guest_id camera) t (should_log_session guest_id camera t m).1
unfolding should_log_session LoggedSince
logged_now guest_id camera t m h =
    (t, ground (arith, lookup-put_self (session_key guest_id camera) t m), omega arith)

-- Two logged sessions of one guest and camera are fifteen minutes apart or more, whatever sessions
-- are asked for between them, by whomever and in whatever order the clock is read.
pub sessions_logged_apart :
    (guest_id camera : Text) (t t' : Time) (cs : List SessionCall) (m : Map Time)
    → (should_log_session guest_id camera t m).0 ≡ true
    → let m' = run_sessions cs (should_log_session guest_id camera t m).1 in
      (should_log_session guest_id camera t' m').0 ≡ true → t + stream_session_ttl ≤ t'
sessions_logged_apart guest_id camera t t' cs m h h' =
    logs_apart guest_id camera t t' (run_sessions cs (should_log_session guest_id camera t m).1)
      (run_keeps_logged (session_key guest_id camera) t cs _ (logged_now guest_id camera t m h)) h'

module _ (d : Sha256) (h : Hmac) where
  secret-open_session :
      (env : Readings) (r : Request) (camera : Text) (g : Guest) (a : StreamApi)
      → (open_session d h env r camera g a).1.secret ≡ a.secret
  unfolding open_session log_session record_session
  secret-open_session env r camera g a = ground arith

  open_session_reply :
      (env : Readings) (r : Request) (camera : Text) (g : Guest) (a : StreamApi) (url : Text)
      (expires : ℕ)
      → (open_session d h env r camera g a).0 ≡ (200, some (url, expires))
      → let exp = env.expiry_from + stream_session_ttl in
        (url ≡ session_url d h a.secret camera exp) × (expires ≡ unix exp)
  unfolding open_session
  open_session_reply env r camera g a url expires e = ground arith

  -- A granted session was asked for by a guest.
  granted :
      (env : Readings) (r : Request) (camera : Text) (a : StreamApi) (url : Text) (expires : ℕ)
      → (session d h env r camera a).0 ≡ (200, some (url, expires))
      → (g : Guest) × ((identify d h env r a).0 ≡ some g)
        × (session d h env r camera a ≡ open_session d h env r camera g (identify d h env r a).1)
  unfolding session
  granted env r camera a url expires e = elim (Option-cases (identify d h env r a).0) [
    | inl f ↦
        let n : (session d h env r camera a).0 ≡ (401, none) = rw (f, session) refl in
        absurd (ground (arith, n, e))
    | inr (g, f) ↦ (g, f, rw (f, session) refl)
  ]

  -- A session that is granted gives the address of the camera's playlist, with a token that the
  -- server accepts for that camera up to the second of the expiry which the answer names, and no
  -- longer. The expiry is in the range of the machine's integers.
  pub session_url_works :
      (env : Readings) (r : Request) (camera : Text) (a : StreamApi) (url : Text) (expires : ℕ)
      (now : Time)
      → unix (env.expiry_from + stream_session_ttl) ≤ max_int64
      → (session d h env r camera a).0 ≡ (200, some (url, expires))
      → (sig : Text) × (url
          ≡ codes "/guest/cam/" ++ (camera ++ (codes "/hls/index.m3u8?s=" ++ query_escape sig)))
        × (verify_stream h (session d h env r camera a).1.secret camera sig now
            ≡ leb (unix now) expires)
  unfolding session_url identify
  session_url_works env r camera a url expires now small e =
      let (g, f, same) = granted env r camera a url expires e in
      let a' = (identify d h env r a).1 in
      let exp = env.expiry_from + stream_session_ttl in
      let (u, x) =
        open_session_reply env r camera g a' url expires
          (sym (ap (λ (y : SessionReply × StreamApi). y.0) same) ∙ e) in
      let secret : (session d h env r camera a).1.secret ≡ a.secret =
        ap (λ (y : SessionReply × StreamApi). y.1.secret) same
        ∙ secret-open_session env r camera g a' in
      (
        sign_stream h a.secret camera exp,
        u,
        rw (secret, x) (verify-sign h a.secret camera exp now small),
      )

  -- A session is granted only for a request that bears, behind `Bearer `, the token of a guest in the
  -- store who is not revoked. A demo guest is one.
  pub session_for_guest :
      (env : Readings) (r : Request) (camera : Text) (a : StreamApi) (url : Text) (expires : ℕ)
      → (session d h env r camera a).0 ≡ (200, some (url, expires))
      → (token : Text) × (r.authorization ≡ codes "Bearer " ++ token)
        × (rec : GuestRecord) × Memᴰ rec a.store.guests
        × (rec.token_hash ≡ hash_secret d token)
        × (rec.revoked ≡ false)
  unfolding identify
  session_for_guest env r camera a url expires e =
      let (g, f, _) = granted env r camera a url expires e in
      elim (Option-cases (cut_prefix (codes "Bearer ") r.authorization)) [
        | inl p ↦ absurd (ground (arith, p, f))
        | inr (token, p) ↦
            let ok : (authenticate d token env.authenticated_at env.seen_saved a.store).0 ≡ some g =
              ground (arith, p, f) in
            let (rec, m, hash, live, _, _) =
              authenticate_sound d token env.authenticated_at env.seen_saved a.store g ok in
            (token, append-cut_prefix (codes "Bearer ") r.authorization token p, rec, m, hash, live)
      ]
