-- ===== src/Rtsp/Sdp.antt =====
-- rtsp.go: the session description, and the media that are picked from it.
--
-- Whether an address is absolute is a question to `net/url`, a parameter.
pub mod Pick
use camonitor.Prelude.{
  ℕ, ◌+◌, ◌-◌, ◌≡◌, Bool, true, false, not, ◌&&◌, ◌||◌, List, [], ◌∷◌, ◌++◌, Option, none, some,
  ltb, ◌==◌, if◌then◌else◌, drop, Text, codes, is_empty, is_space, text_eq, cut, cut_prefix, Map,
  lookup, put,
}
use camonitor.Stream.Playlist.{lines, trim_returns}
use camonitor.Rtsp.Response.{text_of}

-- A media section: `codecs` by payload type.
pub record RawMedia : Type 0 where
  pub kind : Text
  pub pts : List Text
  pub codecs : Map Text
  pub control : Text

pub record RtspMedia : Type 0 where
  pub kind : Text
  pub codec : Text
  pub control_url : Text

-- `strings.Fields`, with the word that has been begun.
fields_from : Text → Text → List Text
fields_from word [] = if is_empty word then [] else word ∷ []
fields_from word (c ∷ s) =
    let rest = fields_from (if is_space c then [] else word ++ c ∷ []) s in
    if is_space c && not (is_empty word) then word ∷ rest else rest

unfoldable pub fields : Text → List Text
unfolding fields_from
fields s = fields_from [] s

abbrev upper : ℕ → ℕ
upper c = if (ltb 96 c) && (ltb c 123) then c - 32 else c

-- `strings.ToUpper` on ASCII.
unfoldable pub to_upper : Text → Text
to_upper [] = []
to_upper (c ∷ s) = upper c ∷ to_upper s

first_of : List Text → Text
first_of [] = []
first_of (f ∷ fs) = f

unfoldable pub new_media : Text → RawMedia
unfolding fields first_of
new_media s = record {
  kind = first_of (fields s);
  pts = drop 3 (fields s);
  codecs = [];
  control = [];
}

-- The sections that are complete, and the one that is being read.
pub record Sections : Type 0 where
  pub medias : List RawMedia
  pub current : Option RawMedia

abbrev pub closed : List RawMedia → Option RawMedia → List RawMedia
closed ms none = ms
closed ms (some m) = ms ++ m ∷ []

unfoldable pub add_codec : Text → RawMedia → RawMedia
unfolding to_upper
add_codec s m =
    let (pt, rest, found) = cut 32 s in
    if found then record m { codecs = put pt (to_upper ((cut b'/' rest).0)) m.codecs } else m

abbrev set_control : Text → RawMedia → RawMedia
set_control control m = record m { control = control }

abbrev on_current : (RawMedia → RawMedia) → Sections → Sections
on_current f s = record s { current = elim s.current [ none ↦ none | some m ↦ some (f m) ] }

unfoldable pub read_sdp_line : Text → Sections → Sections
unfolding new_media add_codec
read_sdp_line line s = elim (cut_prefix (codes "m=") line) [
  | some m ↦ record { medias = closed s.medias s.current; current = some (new_media m) }
  | none ↦ elim (cut_prefix (codes "a=control:") line) [
    | some control ↦ on_current (set_control control) s
    | none ↦ elim (cut_prefix (codes "a=rtpmap:") line) [
      | some rtpmap ↦ on_current (add_codec rtpmap) s
      | none ↦ s
    ]
  ]
]

read_sdp_lines : List Text → Sections → Sections
unfolding read_sdp_line
read_sdp_lines [] s = s
read_sdp_lines (l ∷ ls) s = read_sdp_lines ls (read_sdp_line (trim_returns l) s)

unfoldable pub sdp_medias : Text → List RawMedia
unfolding read_sdp_lines
sdp_medias sdp =
    let s = read_sdp_lines (lines sdp) (record { medias = []; current = none }) in
    closed s.medias s.current

abbrev pub is_one_of : Text → List Text → Bool
is_one_of c [] = false
is_one_of c (w ∷ ws) = text_eq w c || is_one_of c ws

-- The codec of the first payload type that has one of these, or the empty text.
unfoldable pub pick : List Text → Map Text → List Text → Text
pick want codecs [] = []
pick want codecs (pt ∷ pts) =
    let rest = pick want codecs pts in
    let c = text_of (lookup pt codecs) in if is_one_of c want then c else rest

abbrev pub video_codecs : List Text
video_codecs = codes "H264" ∷ codes "H265" ∷ []

abbrev pub audio_codecs : List Text
audio_codecs = codes "L16" ∷ codes "PCMA" ∷ codes "PCMU" ∷ []

pub data SdpError : Type 0 where
  no_control no_video : SdpError

-- The video media and an audio media, or what is missing.
pub data Media : Type 0 where
  found : RtspMedia → Option RtspMedia → Media
  not_found : SdpError → Media

module _ (is_absolute : Text → Bool) where
  ends_in_slash : Text → Bool
  ends_in_slash [] = false
  ends_in_slash (c ∷ s) = if is_empty s then c == b'/' else ends_in_slash s

  unfoldable pub resolve_control : Text → Text → Text
  unfolding ends_in_slash
  resolve_control base control =
      if is_empty control || text_eq control (codes "*")
      then base
      else if is_absolute control
      then control
      else (if ends_in_slash base then base else base ++ b'/' ∷ []) ++ control

  unfoldable pub video_codec : RawMedia → Text
  unfolding pick
  video_codec m = pick video_codecs m.codecs m.pts

  unfoldable pub audio_codec : RawMedia → Text
  unfolding pick
  audio_codec m = pick audio_codecs m.codecs m.pts

  abbrev pub media_of : Text → Text → Text → RawMedia → RtspMedia
  media_of base kind codec m = record {
    kind = kind;
    codec = codec;
    control_url = resolve_control base m.control;
  }

  abbrev with_video : Option RtspMedia → Option RtspMedia → Media
  with_video none audio = not_found no_video
  with_video (some v) audio = found v audio

  unfoldable pub pick_media : Text → List RawMedia → Option RtspMedia → Option RtspMedia → Media
  unfolding video_codec audio_codec
  pick_media base [] video audio = with_video video audio
  pick_media base (m ∷ ms) video audio =
      let as_video =
        pick_media base ms (some (media_of base (codes "video") (video_codec m) m)) audio in
      let as_audio =
        pick_media base ms video (some (media_of base (codes "audio") (audio_codec m) m)) in
      let skip = pick_media base ms video audio in
      if text_eq m.kind (codes "video")
      then elim video [
        | some v ↦ skip
        | none ↦
            if is_empty (video_codec m)
            then skip
            else if is_empty m.control
            then not_found no_control
            else as_video
      ]
      else if text_eq m.kind (codes "audio")
      then elim audio [
        | some a ↦ skip
        | none ↦ if is_empty (audio_codec m) || is_empty m.control then skip else as_audio
      ]
      else skip

  unfoldable pub find_media : Text → Text → Media
  unfolding pick_media
  find_media sdp base = pick_media base (sdp_medias sdp) none none
