-- ===== src/Rtsp/Sdp/Pick.antt =====
-- rtsp.go: the loop over the media sections is two searches.
use camonitor.Prelude.{
  ◌≡◌, refl, Bool, true, false, not, ◌&&◌, List, [], ◌∷◌, Option, none, some, arith, if◌then◌else◌,
  Text, codes, is_empty, text_eq, text_eq-to,
}
use camonitor.Rtsp.Sdp.{
  RawMedia, RtspMedia, sdp_medias, no_control, no_video, Media, found, not_found, video_codec,
  audio_codec, media_of, pick_media, find_media,
}

module _ (is_absolute : Text → Bool) where
  -- A video section with a codec that can be forwarded.
  abbrev pub is_video : RawMedia → Bool
  is_video m = text_eq m.kind (codes "video") && not (is_empty (video_codec is_absolute m))

  -- An audio section with a codec that can be converted, and a control address.
  abbrev pub is_audio : RawMedia → Bool
  is_audio m =
      text_eq m.kind (codes "audio")
      && (not (is_empty (audio_codec is_absolute m)) && not (is_empty m.control))

  unfoldable pub find_first : (RawMedia → Bool) → List RawMedia → Option RawMedia
  find_first p [] = none
  find_first p (m ∷ ms) = let rest = find_first p ms in if p m then some m else rest

  abbrev pub found_audio : Text → Option RawMedia → Option RtspMedia
  found_audio base none = none
  found_audio base (some m) =
      some (media_of is_absolute base (codes "audio") (audio_codec is_absolute m) m)

  abbrev checked_video : Text → RawMedia → Option RtspMedia → Media
  checked_video base m audio =
      if is_empty m.control
      then not_found no_control
      else found (media_of is_absolute base (codes "video") (video_codec is_absolute m) m) audio

  -- The outcome of the two searches.
  abbrev pub chosen : Text → Option RawMedia → Option RtspMedia → Media
  chosen base none audio = not_found no_video
  chosen base (some m) audio = checked_video base m audio

  or_else : Option RtspMedia → Option RtspMedia → Option RtspMedia
  or_else none b = b
  or_else (some a) b = some a

  chosen_after : Text → Option RtspMedia → Option RawMedia → Option RtspMedia → Media
  chosen_after base (some v) m audio = found v audio
  chosen_after base none m audio = chosen base m audio

  kinds_differ : (k : Text) → text_eq k (codes "video") ≡ true → text_eq k (codes "audio") ≡ false
  unfolding text_eq
  kinds_differ k h = rw (text_eq-to k (codes "video") h) refl

  pick_media_lem :
      (base : Text) (ms : List RawMedia) (video audio : Option RtspMedia)
      → pick_media is_absolute base ms video audio
        ≡ chosen_after base video
            (find_first is_video ms)
            (or_else audio (found_audio base (find_first is_audio ms)))
  unfolding pick_media find_first or_else chosen_after
  pick_media_lem base [] none none = refl
  pick_media_lem base [] none (some a) = refl
  pick_media_lem base [] (some v) none = refl
  pick_media_lem base [] (some v) (some a) = refl
  pick_media_lem base (m ∷ ms) (some v) none = ground (
    arith,
    kinds_differ m.kind,
    pick_media_lem base ms (some v) none,
    pick_media_lem base ms (some v)
        (some (media_of is_absolute base (codes "audio") (audio_codec is_absolute m) m)),
  )
  pick_media_lem base (m ∷ ms) (some v) (some a) =
      ground (arith, kinds_differ m.kind, pick_media_lem base ms (some v) (some a))
  pick_media_lem base (m ∷ ms) none none = ground (
    arith,
    kinds_differ m.kind,
    pick_media_lem base ms none none,
    pick_media_lem base ms none
        (some (media_of is_absolute base (codes "audio") (audio_codec is_absolute m) m)),
    pick_media_lem base ms
        (some (media_of is_absolute base (codes "video") (video_codec is_absolute m) m)) none,
  )
  pick_media_lem base (m ∷ ms) none (some a) = ground (
    arith,
    kinds_differ m.kind,
    pick_media_lem base ms none (some a),
    pick_media_lem base ms
        (some (media_of is_absolute base (codes "video") (video_codec is_absolute m) m)) (some a),
  )

  -- The one pass over the sections is two searches that do not disturb one another: the video media is the
  -- first video section that names a codec which can be forwarded, and an error if it has no control
  -- address or there is none; the audio media is the first audio section with a codec that can be
  -- converted and a control address, and its absence is no error.
  pub find_media-two_searches :
      (sdp base : Text)
      → find_media is_absolute sdp base
        ≡ chosen base
            (find_first is_video (sdp_medias sdp))
            (found_audio base (find_first is_audio (sdp_medias sdp)))
  unfolding find_media chosen_after or_else
  find_media-two_searches sdp base = pick_media_lem base (sdp_medias sdp) none none
