-- ===== src/Rtsp/Control/Requests.antt =====
-- rtsp.go: which requests `do` sends, and what it answers.
use camonitor.Prelude.{
  ℕ, ◌≡◌, refl, ap, false, not, ◌&&◌, inl, inr, ◌⊎◌, List, [], ◌∷◌, Option, none, some, arith,
  if◌then◌else◌, Bool-cases, Text, codes, is_empty, Map, put, lookup-put, text_eq, pos, eq_ℤ,
  eq_ℤ_iff,
}
use camonitor.Door.Digest.{Md5, DigestChallenge, parse_digest_challenge}
use camonitor.Rtsp.Response.{Response, header, text_of}
use camonitor.Rtsp.Control.{
  Request, RtspConn, Camera, Done, response, do_error, request_of, send, finish, authorization,
  retry, after_send, do_request, session_of,
}

module _ (md5 : Md5) (cnonces : ℕ → Text) (camera : Camera) (method uri : Text)
    (headers : Map Text) where
  -- The connection after one request.
  abbrev pub once : RtspConn → RtspConn
  once c = (send camera method uri headers c).0

  -- The connection after a second one, which answers the challenge of a 401 to the first.
  abbrev pub Twice : RtspConn → RtspConn → Type 0
  Twice c c' =
      (r : Response) × (chal : DigestChallenge) × (camera (request_of method uri headers c)
        ≡ some r)
      × (r.status_code ≡ pos 401)
      × (is_empty c.user ≡ false)
      × (parse_digest_challenge (header r (codes "WWW-Authenticate")) ≡ some chal)
      × (c'
          ≡ (send camera method uri
              (put (codes "Authorization")
                (authorization md5 cnonces camera method uri (once c) chal) headers)
              (once c)).0)

  -- The answer is the camera's to the last request, and is 200. That request names the session.
  abbrev pub Answered : Text → RtspConn → Done → Type 0
  Answered session c (do_error e) = Unit {0}
  Answered session c (response r) =
      (last : Request) × (before : List Request) × (c.sent ≡ last ∷ before)
      × (last.method ≡ method)
      × (last.session ≡ session)
      × (camera last ≡ some r)
      × (r.status_code ≡ pos 200)

  finish-Answered :
      (session : Text) (c : RtspConn) (last : Request) (before : List Request) (o : Option Response)
      → c.sent ≡ last ∷ before
      → last.method ≡ method
      → last.session ≡ session
      → camera last ≡ o
      → Answered session c (finish o)
  finish-Answered session c last before none e m n h = tt
  finish-Answered session c last before (some r) e m n h =
      elim (Bool-cases (eq_ℤ r.status_code (pos 200))) [
        | inl ok ↦ rw ok (last, before, e, m, n, h, (eq_ℤ_iff r.status_code (pos 200)).0 ok)
        | inr bad ↦ rw bad tt
      ]

  Outcome : RtspConn → RtspConn × Done → Type 0
  Outcome c d = ((d.0 ≡ once c) ⊎ Twice c d.0) × Answered (session_of c headers) d.0 d.1

  same_session :
      (c : RtspConn) (v : Text)
      → session_of (once c) (put (codes "Authorization") v headers) ≡ session_of c headers
  unfolding send text_eq
  same_session c v =
      ap (λ (o : Option Text). if is_empty (text_of o) then c.session else [])
        (lookup-put (codes "Authorization") (codes "Session") v headers)

  retry_outcome :
      (c : RtspConn) (r : Response) (o : Option DigestChallenge)
      → camera (request_of method uri headers c) ≡ some r
      → r.status_code ≡ pos 401
      → is_empty c.user ≡ false
      → parse_digest_challenge (header r (codes "WWW-Authenticate")) ≡ o
      → Outcome c (retry md5 cnonces camera method uri headers (once c) o)
  unfolding Outcome retry send request_of
  retry_outcome c r none h s u p = (inl refl, tt)
  retry_outcome c r (some chal) h s u p =
      let hs : Map Text =
        put (codes "Authorization") (authorization md5 cnonces camera method uri (once c) chal)
          headers in
      (
        inr (r, chal, h, s, u, p, refl),
        finish-Answered (session_of c headers) (send camera method uri hs (once c)).0
            (request_of method uri hs (once c)) (once c).sent
            (camera (request_of method uri hs (once c))) refl refl (same_session c _) refl,
      )

  first_outcome :
      (c : RtspConn) (o : Option Response)
      → camera (request_of method uri headers c) ≡ o
      → Outcome c (after_send md5 cnonces camera method uri headers (once c, o))
  unfolding after_send send request_of Outcome
  first_outcome c none h = (inl refl, tt)
  first_outcome c (some r) h =
      elim (Bool-cases (eq_ℤ r.status_code (pos 401) && not (is_empty c.user))) [
        | inl asks ↦ rw asks (
            retry_outcome c r (parse_digest_challenge (header r (codes "WWW-Authenticate"))) h
              (ground (arith, asks, eq_ℤ_iff r.status_code (pos 401))) (ground (arith, asks)) refl)
        | inr other ↦ rw other (
          inl refl,
          finish-Answered (session_of c headers) (once c) (request_of method uri headers c) c.sent
              (some r) refl refl refl h,
        )
      ]

  -- A call sends one request, without an Authorization header of its own; it sends a second one only where
  -- the first is answered 401, the connection has a user and the challenge can be read, and this one
  -- answers the challenge. It is a success only if the camera answered the last request with 200; that
  -- request has the call's method and names the session that the first one would.
  pub do_request_sends :
      (c : RtspConn)
      → (((do_request md5 cnonces camera method uri headers c).0 ≡ once c)
          ⊎ Twice c (do_request md5 cnonces camera method uri headers c).0)
        × Answered
            (session_of c headers)
            (do_request md5 cnonces camera method uri headers c).0
            (do_request md5 cnonces camera method uri headers c).1
  unfolding do_request send Outcome
  do_request_sends c = first_outcome c (camera (request_of method uri headers c)) refl
