-- ===== src/Door/Requests.antt =====
-- door.go: the requests that the door client sends, and when it says that the door was opened.
use mathlib.Core.List.{Memᴰ}
use camonitor.Prelude.{
  ◌≡◌, ◌⊎◌, refl, inl, inr, List, [], ◌∷◌, Option, some, arith, ◌==◌, ==_iff, Bool-cases,
  Option-cases, Text, codes, Map, lookup,
}
use camonitor.Config.{StreamConfig, door_open_url}
use camonitor.Door.Digest.{Md5, DigestChallenge, parse_digest_challenge, build_digest_response}
use camonitor.Door.{
  Answer, Sent, answered, failed, opened, DoorRequest, Station, authed, answer_challenge,
  first_request, with_first, client_open,
}

module _ (d : Md5) (station : Station) (request_uri : Text → Option Text) where
  -- The second request, made for the challenge that the station gave.
  abbrev pub IsAsked : Text → StreamConfig → DoorRequest → Type 0
  IsAsked cnonce s r =
      (a : Answer) × (c : DigestChallenge) × (uri : Text) × (station
          (first_request d station request_uri s)
        ≡ answered a)
      × (a.status ≡ 401)
      × (parse_digest_challenge a.www_authenticate ≡ some c)
      × (request_uri (door_open_url s) ≡ some uri)
      × (r ≡ record {
        target = door_open_url s;
        authorization = build_digest_response d (codes "GET") uri s.user s.pass cnonce c;
      })

  second_requests :
      (cnonce : Text) (s : StreamConfig) (a : Answer)
      → station (first_request d station request_uri s) ≡ answered a
      → a.status ≡ 401
      → ((answer_challenge d station request_uri cnonce s a).1 ≡ [])
        ⊎ ((r : DoorRequest) × ((answer_challenge d station request_uri cnonce s a).1 ≡ r ∷ [])
            × IsAsked cnonce s r)
  unfolding answer_challenge
  second_requests cnonce s a e k = elim (Option-cases (parse_digest_challenge a.www_authenticate)) [
    | inl p ↦ inl (rw (p, answer_challenge) refl)
    | inr (c, p) ↦ elim (Option-cases (request_uri (door_open_url s))) [
      | inl u ↦ inl (rw (p, answer_challenge, u) refl)
      | inr (uri, u) ↦ inr (_, rw (p, answer_challenge, u) refl, (a, c, uri, e, k, p, u, refl))
    ]
  ]

  later_requests :
      (cnonce : Text) (s : StreamConfig) (x : Sent)
      → station (first_request d station request_uri s) ≡ x
      → ((with_first d station request_uri cnonce s x).1 ≡ [])
        ⊎ ((r : DoorRequest) × ((with_first d station request_uri cnonce s x).1 ≡ r ∷ [])
            × IsAsked cnonce s r)
  unfolding with_first
  later_requests cnonce s (failed e) h = inl refl
  later_requests cnonce s (answered a) h = elim (Bool-cases (a.status == 200)) [
    | inl ok ↦ inl (rw ok refl)
    | inr bad ↦ elim (Bool-cases (a.status == 401)) [
      | inl asks ↦ rw (bad, asks) (second_requests cnonce s a h ((==_iff a.status 401).0 asks))
      | inr other ↦ inl (rw (bad, other) refl)
    ]
  ]

  -- A call for a known stream sends its first request to the stream's address and without credentials;
  -- it sends a second one only when the station answers that with 401 and a challenge that can be read,
  -- and this one has the response to the challenge. It sends no more.
  pub client_open_sent :
      (streams : Map StreamConfig) (stream_id cnonce : Text) (s : StreamConfig)
      → lookup stream_id streams ≡ some s
      → (rest : List DoorRequest) × ((client_open d station request_uri streams stream_id cnonce).1
          ≡ first_request d station request_uri s ∷ rest)
        × ((rest ≡ []) ⊎ ((r : DoorRequest) × (rest ≡ r ∷ []) × IsAsked cnonce s r))
  unfolding client_open
  client_open_sent streams stream_id cnonce s e =
      (_, rw (e, client_open) refl, later_requests cnonce s _ refl)

  -- A request among these was answered 200.
  abbrev pub IsGranted : List DoorRequest → Type 0
  IsGranted sent =
      (r : DoorRequest) × Memᴰ r sent × (a : Answer) × (station r ≡ answered a) × (a.status ≡ 200)

  authed-IsGranted :
      (first r : DoorRequest) (x : Sent)
      → station r ≡ x
      → authed x ≡ opened
      → IsGranted (first ∷ r ∷ [])
  authed-IsGranted first r (failed e) h o = absurd (ground (arith, o))
  authed-IsGranted first r (answered a) h o =
      (r, Memᴰ.tail (Memᴰ.head refl), a, h, ground (arith, o))

  challenge-IsGranted :
      (cnonce : Text) (s : StreamConfig) (a : Answer) (first : DoorRequest)
      → (answer_challenge d station request_uri cnonce s a).0 ≡ opened
      → IsGranted (first ∷ (answer_challenge d station request_uri cnonce s a).1)
  unfolding answer_challenge
  challenge-IsGranted cnonce s a first o =
      elim (Option-cases (parse_digest_challenge a.www_authenticate)) [
        | inl p ↦ absurd (ground (arith, p, o))
        | inr (c, p) ↦ elim (Option-cases (request_uri (door_open_url s))) [
          | inl u ↦ absurd (ground (arith, p, u, o))
          | inr (uri, u) ↦
              rw (p, answer_challenge, u)
                (authed-IsGranted first _ _ refl (rw (p, answer_challenge, u) at o))
        ]
      ]

  first-IsGranted :
      (cnonce : Text) (s : StreamConfig) (first : DoorRequest) (x : Sent)
      → station first ≡ x
      → (with_first d station request_uri cnonce s x).0 ≡ opened
      → IsGranted (first ∷ (with_first d station request_uri cnonce s x).1)
  unfolding with_first
  first-IsGranted cnonce s first (failed e) h o = absurd (ground (arith, o))
  first-IsGranted cnonce s first (answered a) h o = elim (Bool-cases (a.status == 200)) [
    | inl good ↦ (first, Memᴰ.head refl, a, h, (==_iff a.status 200).0 good)
    | inr bad ↦ elim (Bool-cases (a.status == 401)) [
      | inl asks ↦ rw (bad, asks) (challenge-IsGranted cnonce s a first (rw (bad, asks) at o))
      | inr other ↦ absurd (ground (arith, bad, other, o))
    ]
  ]

  -- The client says that a door was opened only for a stream that it knows, and only when the station
  -- answered one of the requests that it sent with 200.
  pub client_open_opened :
      (streams : Map StreamConfig) (stream_id cnonce : Text)
      → (client_open d station request_uri streams stream_id cnonce).0 ≡ opened
      → (s : StreamConfig) × (lookup stream_id streams ≡ some s)
        × IsGranted (client_open d station request_uri streams stream_id cnonce).1
  unfolding client_open
  client_open_opened streams stream_id cnonce o = elim (Option-cases (lookup stream_id streams)) [
    | inl e ↦ absurd (ground (arith, e, o))
    | inr (s, e) ↦ (
      s,
      e,
      rw (e, client_open)
          (first-IsGranted cnonce s (first_request d station request_uri s) _ refl
            (rw (e, client_open) at o)),
    )
  ]
