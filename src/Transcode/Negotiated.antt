-- ===== src/Transcode/Negotiated.antt =====
-- transcode.go with rtsp.go: the sound that is set up can be converted.
use camonitor.Prelude.{
  ◌≡◌, ◌∙◌, ◌⊎◌, refl, sym, ap, Bool, true, false, not, ◌&&◌, inl, inr, List, [], ◌∷◌, Option, none,
  some, arith, if◌then◌else◌, Bool-cases, Text, codes, text_eq, text_eq-to, is_empty, Map, lookup,
}
use camonitor.Rtsp.Response.{text_of}
use camonitor.Rtsp.Sdp.{
  RawMedia, RtspMedia, found, sdp_medias, is_one_of, pick, audio_codecs, audio_codec, find_media,
}
use camonitor.Rtsp.Sdp.Pick.{
  is_video, is_audio, find_first, found_audio, chosen, find_media-two_searches,
}
use camonitor.Transcode.{Packet, audio_forwarder, forward_pcma, ulaw_to_alaw, l16_to_pcma}

chosen_or_rest :
    (c : Text) (rest : Text) (want : List Text) (b : Bool)
    → is_one_of c want ≡ b
    → (is_empty rest ≡ false → is_one_of rest want ≡ true)
    → is_empty (if b then c else rest) ≡ false
    → is_one_of (if b then c else rest) want ≡ true
chosen_or_rest c rest want true e later h = e
chosen_or_rest c rest want false e later h = later h

is_one_of-pick :
    (want : List Text) (codecs : Map Text) (pts : List Text)
    → is_empty (pick want codecs pts) ≡ false
    → is_one_of (pick want codecs pts) want ≡ true
unfolding pick
is_one_of-pick want codecs [] h = absurd (cc)
is_one_of-pick want codecs (pt ∷ pts) h =
    let c : Text = text_of (lookup pt codecs) in
    chosen_or_rest c (pick want codecs pts) want (is_one_of c want) refl
      (is_one_of-pick want codecs pts) h

-- A forwarder for a codec.
abbrev pub Forwards : Text → Type 0
Forwards codec = (f : Packet → Option Packet) × (audio_forwarder codec ≡ some f)

handled_under : (name codec : Text) → Forwards name → text_eq name codec ≡ true → Forwards codec
handled_under name codec (f, e) h = (f, ap audio_forwarder (sym (text_eq-to name codec h)) ∙ e)

pcma_handled : Forwards (codes "PCMA")
unfolding audio_forwarder text_eq
pcma_handled = (forward_pcma, refl)

pcmu_handled : Forwards (codes "PCMU")
unfolding audio_forwarder text_eq
pcmu_handled = (ulaw_to_alaw, refl)

l16_handled : Forwards (codes "L16")
unfolding audio_forwarder text_eq
l16_handled = (l16_to_pcma, refl)

one_of :
    (c w : Text) (ws : List Text)
    → is_one_of c (w ∷ ws) ≡ true
    → (text_eq w c ≡ true) ⊎ (is_one_of c ws ≡ true)
one_of c w ws h = elim (Bool-cases (text_eq w c)) [ inl e ↦ inl e | inr e ↦ inr (ground arith) ]

audio_codecs-Forwards : (c : Text) → is_one_of c audio_codecs ≡ true → Forwards c
audio_codecs-Forwards c h = elim (one_of c (codes "L16") (codes "PCMA" ∷ codes "PCMU" ∷ []) h) [
  | inl e ↦ handled_under (codes "L16") c l16_handled e
  | inr g ↦ elim (one_of c (codes "PCMA") (codes "PCMU" ∷ []) g) [
    | inl e ↦ handled_under (codes "PCMA") c pcma_handled e
    | inr k ↦ elim (one_of c (codes "PCMU") [] k) [
      | inl e ↦ handled_under (codes "PCMU") c pcmu_handled e
      | inr n ↦ absurd (cc)
    ]
  ]
]

first_or_rest :
    (p : RawMedia → Bool) (x m : RawMedia) (rest : Option RawMedia) (b : Bool)
    → p x ≡ b
    → (rest ≡ some m → p m ≡ true)
    → (if b then some x else rest) ≡ some m
    → p m ≡ true
first_or_rest p x m rest true e later h = let same : x ≡ m = cc in ap p (sym same) ∙ e
first_or_rest p x m rest false e later h = later h

abbrev codec_or : Text → Option RtspMedia → Text
codec_or c none = c
codec_or c (some a) = a.codec

module _ (is_absolute : Text → Bool) where
  find_first-true :
      (p : RawMedia → Bool) (ms : List RawMedia) (m : RawMedia)
      → find_first is_absolute p ms ≡ some m
      → p m ≡ true
  unfolding find_first
  find_first-true p [] m h = absurd (cc)
  find_first-true p (x ∷ ms) m h =
      first_or_rest p x m (find_first is_absolute p ms) (p x) refl (find_first-true p ms m) h

  audio_part : (a b : Bool) (s : Text) → (a && (not (is_empty s) && b)) ≡ true → is_empty s ≡ false
  audio_part a b s h = ground arith

  found_audio-Forwards :
      (base : Text) (o : Option RawMedia) (a : RtspMedia)
      → ((m : RawMedia) → o ≡ some m → is_audio is_absolute m ≡ true)
      → found_audio is_absolute base o ≡ some a
      → Forwards a.codec
  unfolding audio_codec
  found_audio-Forwards base none a is h = absurd (cc)
  found_audio-Forwards base (some m) a is h =
      let named : is_empty (audio_codec is_absolute m) ≡ false =
        audio_part (text_eq m.kind (codes "audio")) (not (is_empty m.control))
          (audio_codec is_absolute m) (is m refl) in
      let (f, e) =
        audio_codecs-Forwards (audio_codec is_absolute m)
          (is_one_of-pick audio_codecs m.codecs m.pts named) in
      let same : audio_codec is_absolute m ≡ a.codec =
        ap (λ (o : Option RtspMedia). codec_or (codes "") o) h in
      (f, ap audio_forwarder (sym same) ∙ e)

  chosen-found :
      (base : Text) (o : Option RawMedia) (audio : Option RtspMedia) (v a : RtspMedia)
      → chosen is_absolute base o audio ≡ found v (some a)
      → audio ≡ some a
  chosen-found base none audio v a h = absurd (cc)
  chosen-found base (some m) audio v a h = ground arith

  -- Whatever a camera describes, an audio media that is set up has a codec that can be forwarded: there is
  -- no audio without a forwarder.
  pub audio_media-Forwards :
      (sdp base : Text) (v a : RtspMedia)
      → find_media is_absolute sdp base ≡ found v (some a)
      → Forwards a.codec
  audio_media-Forwards sdp base v a h =
      let ms : List RawMedia = sdp_medias sdp in
      let first : Option RawMedia = find_first is_absolute (is_audio is_absolute) ms in
      found_audio-Forwards base first a (find_first-true (is_audio is_absolute) ms) (
        chosen-found base (find_first is_absolute (is_video is_absolute) ms)
          (found_audio is_absolute base first) v a
          (sym (find_media-two_searches is_absolute sdp base) ∙ h))
