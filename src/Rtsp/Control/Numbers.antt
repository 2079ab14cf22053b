-- ===== src/Rtsp/Control/Numbers.antt =====
-- rtsp.go: the numbers of the requests.
use camonitor.Prelude.{ℕ, zero, suc, ◌+◌, ◌≡◌, ap, inl, inr, List, [], ◌∷◌, map, arith, Text, Map}
use camonitor.Door.Digest.{Md5}
use camonitor.Rtsp.Control.{Request, RtspConn, Camera, request_of, send, send_keepalive, do_request}
use camonitor.Rtsp.Control.Requests.{do_request_sends}

abbrev pub count_down : ℕ → List ℕ
count_down zero = []
count_down (suc n) = suc n ∷ count_down n

-- The requests that were sent are numbered from one, in order and without a gap.
abbrev pub IsNumbered : RtspConn → Type 0
IsNumbered c = map (λ (r : Request). r.cseq) c.sent ≡ count_down c.cseq

next_number :
    (c : RtspConn)
    → IsNumbered c
    → (c.cseq + 1) ∷ map (λ (r : Request). r.cseq) c.sent ≡ count_down (c.cseq + 1)
next_number c h = let e : c.cseq + 1 ≡ suc c.cseq = omega arith in rw e (ap (◌∷◌ (suc c.cseq)) h)

pub send-IsNumbered :
    (camera : Camera) (method uri : Text) (headers : Map Text) (c : RtspConn)
    → IsNumbered c
    → IsNumbered (send camera method uri headers c).0
unfolding send request_of
send-IsNumbered camera method uri headers c h = next_number c h

pub send_keepalive-IsNumbered : (c : RtspConn) → IsNumbered c → IsNumbered (send_keepalive c)
unfolding send_keepalive request_of
send_keepalive-IsNumbered c h = next_number c h

module _ (md5 : Md5) (cnonces : ℕ → Text) (camera : Camera) (method uri : Text)
    (headers : Map Text) where
  pub do_request-IsNumbered :
      (c : RtspConn)
      → IsNumbered c
      → IsNumbered (do_request md5 cnonces camera method uri headers c).0
  do_request-IsNumbered c h = elim ((do_request_sends md5 cnonces camera method uri headers c).0) [
    | inl e ↦ rw e (send-IsNumbered camera method uri headers c h)
    | inr (r, chal, a, b, d, p, e) ↦ rw e (
        send-IsNumbered camera method uri _ (send camera method uri headers c).0
          (send-IsNumbered camera method uri headers c h))
  ]

  -- The session stays as it was.
  pub session-do_request :
      (c : RtspConn) → (do_request md5 cnonces camera method uri headers c).0.session ≡ c.session
  unfolding send
  session-do_request c = elim ((do_request_sends md5 cnonces camera method uri headers c).0) [
    | inl e ↦ ap (λ (d : RtspConn). d.session) e
    | inr (r, chal, a, b, d, p, e) ↦ ap (λ (d : RtspConn). d.session) e
  ]
