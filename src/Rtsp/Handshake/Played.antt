-- ===== src/Rtsp/Handshake/Played.antt =====
-- rtsp.go: what a handshake leaves behind.
use camonitor.Prelude.{
  ℕ, ◌≡◌, ◌∙◌, refl, sym, ap, Bool, false, inl, inr, List, [], ◌∷◌, Option, none, some, Bool-cases,
  Text, codes, is_empty, text_eq, lookup, pos,
}
use camonitor.Door.Digest.{Md5}
use camonitor.Rtsp.Response.{Response}
use camonitor.Rtsp.Sdp.{Media, found, not_found, RtspMedia, find_media}
use camonitor.Rtsp.Control.{
  Request, RtspConn, Camera, Done, response, do_error, do_request, session_of,
}
use camonitor.Rtsp.Control.Requests.{do_request_sends, Answered}
use camonitor.Rtsp.Control.Numbers.{IsNumbered, do_request-IsNumbered, session-do_request}
use camonitor.Rtsp.Handshake.{
  Outcome, play_headers, transport, session_uri, wanted_audio, played, play, audio_answered,
  set_up_audio, with_session, video_answered, set_up, described, greeted, handshake,
}

module _ (md5 : Md5) (cnonces : ℕ → Text) (camera : Camera) (is_absolute : Text → Bool) where
  -- A stream that plays: the last request was PLAY, in the session, and the camera answered it with 200.
  abbrev pub Plays : RtspConn → Type 0
  Plays c =
      (is_empty c.session ≡ false)
      × (last : Request) × (before : List Request) × (r : Response) × (c.sent ≡ last ∷ before)
      × (last.method ≡ codes "PLAY")
      × (last.session ≡ c.session)
      × (camera last ≡ some r)
      × (r.status_code ≡ pos 200)

  -- The requests are numbered, and where there is no error the stream plays.
  abbrev Good : Outcome → Type 0
  Good o = IsNumbered o.0 × (o.1 ≡ none → Plays o.0)

  played-Good :
      (uri : Text) (c : RtspConn) (d : RtspConn × Done)
      → is_empty c.session ≡ false
      → IsNumbered d.0
      → d.0.session ≡ c.session
      → Answered md5 cnonces camera
          (codes "PLAY")
          uri
          play_headers
          (session_of c play_headers)
          d.0
          d.1
      → Good (played md5 cnonces camera is_absolute d)
  unfolding played lookup text_eq
  played-Good uri c (c', do_error e) s n k a = (n, λ h. absurd (cc))
  played-Good uri c (c', response r) s n k (last, before, e, m, l, q, ok) =
      (n, λ h. (ap is_empty k ∙ s, last, before, r, e, m, l ∙ sym k, q, ok))

  play-Good :
      (uri : Text) (c : RtspConn)
      → is_empty c.session ≡ false
      → IsNumbered c
      → Good (play md5 cnonces camera is_absolute uri c)
  unfolding play
  play-Good uri c s n =
      played-Good uri c (do_request md5 cnonces camera (codes "PLAY") uri play_headers c) s
        (do_request-IsNumbered md5 cnonces camera (codes "PLAY") uri play_headers c n)
        (session-do_request md5 cnonces camera (codes "PLAY") uri play_headers c)
        ((do_request_sends md5 cnonces camera (codes "PLAY") uri play_headers c).1)

  audio_keeps :
      (codec : Text) (c : RtspConn) (d : RtspConn × Done)
      → IsNumbered d.0
      → d.0.session ≡ c.session
      → IsNumbered (audio_answered md5 cnonces camera is_absolute codec d)
        × ((audio_answered md5 cnonces camera is_absolute codec d).session ≡ c.session)
  unfolding audio_answered
  audio_keeps codec c (c', do_error e) n k = (n, k)
  audio_keeps codec c (c', response r) n k = (n, k)

  set_up_audio_keeps :
      (a : Option RtspMedia) (c : RtspConn)
      → IsNumbered c
      → IsNumbered (set_up_audio md5 cnonces camera is_absolute a c)
        × ((set_up_audio md5 cnonces camera is_absolute a c).session ≡ c.session)
  unfolding set_up_audio
  set_up_audio_keeps none c n = (n, refl)
  set_up_audio_keeps (some a) c n =
      audio_keeps a.codec c _
        (do_request-IsNumbered md5 cnonces camera (codes "SETUP") a.control_url
          (transport (codes "2-3")) c n)
        (session-do_request md5 cnonces camera (codes "SETUP") a.control_url
          (transport (codes "2-3")) c)

  with_session-Good :
      (uri : Text) (a : Option RtspMedia) (c : RtspConn)
      → IsNumbered c
      → Good (with_session md5 cnonces camera is_absolute uri a c)
  unfolding with_session
  with_session-Good uri a c n = elim (Bool-cases (is_empty c.session)) [
    | inl e ↦ rw e (n, λ h. absurd (cc))
    | inr s ↦
        let kept = set_up_audio_keeps a c n in
        rw s (play-Good uri _ (ap is_empty kept.1 ∙ s) kept.0)
  ]

  video-Good :
      (uri : Text) (a : Option RtspMedia) (d : RtspConn × Done)
      → IsNumbered d.0
      → Good (video_answered md5 cnonces camera is_absolute uri a d)
  unfolding video_answered
  video-Good uri a (c, do_error e) n = (n, λ h. absurd (cc))
  video-Good uri a (c, response r) n = with_session-Good uri a _ n

  set_up-Good :
      (has_track : Bool) (uri : Text) (m : Media) (c : RtspConn)
      → IsNumbered c
      → Good (set_up md5 cnonces camera is_absolute has_track uri m c)
  unfolding set_up
  set_up-Good has_track uri (not_found e) c n = (n, λ h. absurd (cc))
  set_up-Good has_track uri (found video audio) c n =
      video-Good uri (wanted_audio has_track audio) _ (
        do_request-IsNumbered md5 cnonces camera (codes "SETUP") video.control_url
          (transport (codes "0-1")) (record c { video_codec = video.codec }) n)

  described-Good :
      (has_track : Bool) (d : RtspConn × Done)
      → IsNumbered d.0
      → Good (described md5 cnonces camera is_absolute has_track d)
  unfolding described
  described-Good has_track (c, do_error e) n = (n, λ h. absurd (cc))
  described-Good has_track (c, response desc) n =
      set_up-Good has_track (session_uri desc c)
        (find_media is_absolute desc.body (session_uri desc c)) c n

  greeted-Good :
      (has_track : Bool) (d : RtspConn × Done)
      → IsNumbered d.0
      → Good (greeted md5 cnonces camera is_absolute has_track d)
  unfolding greeted
  greeted-Good has_track (c, do_error e) n = (n, λ h. absurd (cc))
  greeted-Good has_track (c, response r) n = described-Good has_track _ (
      do_request-IsNumbered md5 cnonces camera (codes "DESCRIBE") c.request_uri
        ((codes "Accept", codes "application/sdp") ∷ []) c n)

  -- Whatever the camera answers, a handshake numbers its requests from where the connection was, one by
  -- one; and one that succeeds holds a session, in which the last request asked for the stream to be
  -- played and was answered 200.
  pub handshake-Plays :
      (has_track : Bool) (c : RtspConn)
      → IsNumbered c
      → IsNumbered (handshake md5 cnonces camera is_absolute has_track c).0
        × ((handshake md5 cnonces camera is_absolute has_track c).1 ≡ none
            → Plays (handshake md5 cnonces camera is_absolute has_track c).0)
  unfolding handshake
  handshake-Plays has_track c n =
      greeted-Good has_track _
        (do_request-IsNumbered md5 cnonces camera (codes "OPTIONS") c.request_uri [] c n)
