-- ===== src/Stream/Playlist/Stamped.antt =====
-- streamapi.go: what a stamped playlist holds.
use camonitor.Prelude.{
  ◌≡◌, ◌⊎◌, ◌∙◌, refl, sym, ap, Bool, true, false, not, ◌&&◌, ◌||◌, inl, inr, List, [], ◌∷◌, ◌++◌,
  map, arith, ◌==◌, ==_iff, if◌then◌else◌, Bool-cases, All, length, drop, Text, codes, is_empty,
  trim_space, contains, cut_prefix, filter_by,
}
use camonitor.Stream.Playlist.{
  query_escape, add_query, split_lines, lines, join_lines, uri_attr, stamp_tag, trim_returns,
  is_tag, stamp_line, sign_playlist_uris,
}
use camonitor.Stream.Playlist.Blanks.{
  all_space, all_space-append, trim_space-blank, contains-append, trim_returns-none,
  trim_returns-append, trim_returns-append_ends, trim_returns-blank, trim_returns-rest,
  trim_returns-split, query_escape-lacks,
}
use camonitor.Stream.Playlist.Feeds.{
  lines-join_lines, split_lines-HasNoFeed, add_query-lacks, stamp_tag-HasNoFeed, HasNoFeed,
}

abbrev pub is_address : Text → Bool
is_address line = not (is_tag line) && not (is_empty (trim_space line))

-- The addresses that a player fetches: the lines that are neither tags nor blank, without the carriage
-- returns at their ends.
unfoldable pub addresses : Text → List Text
addresses playlist = map trim_returns (filter_by is_address (lines playlist))

is_tag-stamp_tag : (sig line : Text) → is_tag line ≡ true → is_tag (stamp_tag sig 0 line) ≡ true
unfolding stamp_tag uri_attr cut_prefix
is_tag-stamp_tag sig [] h = h
is_tag-stamp_tag sig (c ∷ s) h = let e : c ≡ b'#' = (==_iff c b'#').0 h in rw e refl

-- An address grows its query before the carriage returns at its end.
all_space-address : (t r sig : Text) → all_space (add_query t sig ++ r) ≡ false
unfolding add_query
all_space-address t r sig =
    all_space-append (add_query t sig) r
    ∙ ground (
      arith,
      all_space-append t
          ((if contains b'?' t then b'&' else b'?') ∷ (codes "s=" ++ query_escape sig)),
    )

trim_returns-address :
    (t r sig : Text) → trim_returns r ≡ [] → trim_returns (add_query t sig ++ r) ≡ add_query t sig
unfolding add_query
trim_returns-address t r sig h =
    let q : Text = (if contains b'?' t then b'&' else b'?') ∷ (codes "s=" ++ query_escape sig) in
    let clean : contains 13 q ≡ false = ground (arith, query_escape-lacks sig 13 (inr refl)) in
    let kept : trim_returns q ≡ q = trim_returns-none q clean in
    let full : is_empty (trim_returns q) ≡ false = ap is_empty kept in
    trim_returns-append_ends (add_query t sig) r h ∙ trim_returns-append t q full ∙ ap (◌++◌ t) kept

is_tag-address :
    (line sig r : Text)
    → all_space line ≡ false
    → is_tag (add_query (trim_returns line) sig ++ r) ≡ is_tag line
unfolding add_query trim_returns
is_tag-address [] sig r h = cc
is_tag-address (c ∷ s) sig r h = elim (Bool-cases ((c == 13) && is_empty (trim_returns s))) [
  | inl e ↦ absurd (ground (arith, e, h, trim_returns-blank s))
  | inr e ↦ rw e refl
]

-- What a line is, and what becomes of it.
LineKind : Text → Text → Type 0
LineKind sig line =
    ((is_tag line ≡ true) × (stamp_line sig line ≡ stamp_tag sig 0 line))
    ⊎ ((is_tag line ≡ false)
        × (is_empty (trim_space line) ≡ false)
        × (stamp_line sig line
            ≡ add_query (trim_returns line) sig ++ drop (length (trim_returns line)) line))
    ⊎ ((is_tag line ≡ false) × (is_empty (trim_space line) ≡ true) × (stamp_line sig line ≡ line))

line_kind : (sig line : Text) → LineKind sig line
unfolding LineKind stamp_line
line_kind sig line = elim (Bool-cases (is_tag line)) [
  | inl t ↦ inl (t, rw (t, stamp_line) refl)
  | inr t ↦ elim (Bool-cases (is_empty (trim_space line))) [
    | inl b ↦ inr (inr (t, b, rw (t, stamp_line, b) refl))
    | inr b ↦ inr (inl (t, b, rw (t, stamp_line, b) refl))
  ]
]

stamp_line-HasNoFeed : (sig line : Text) → HasNoFeed line → HasNoFeed (stamp_line sig line)
unfolding LineKind HasNoFeed
stamp_line-HasNoFeed sig line h = elim (line_kind sig line) [
  | inl (t, e) ↦ ap (contains 10) e ∙ stamp_tag-HasNoFeed sig 0 line h
  | inr (inl (t, b, e)) ↦
      let r : Text = drop (length (trim_returns line)) line in
      let parts : (contains 10 (trim_returns line) || contains 10 r) ≡ false =
        sym (contains-append 10 (trim_returns line) r)
        ∙ ap (contains 10) (trim_returns-split line)
        ∙ h in
      ap (contains 10) e
      ∙ contains-append 10 (add_query (trim_returns line) sig) r
      ∙ ground (arith, parts, add_query-lacks (trim_returns line) sig 10 (inl refl))
  | inr (inr (t, b, e)) ↦ ap (contains 10) e ∙ h
]

is_address-grown :
    (sig line : Text)
    → is_tag line ≡ false
    → is_empty (trim_space line) ≡ false
    → is_address (add_query (trim_returns line) sig ++ drop (length (trim_returns line)) line)
      ≡ true
is_address-grown sig line t b =
    let r : Text = drop (length (trim_returns line)) line in
    let x : Text = add_query (trim_returns line) sig ++ r in
    let tag : is_tag x ≡ is_tag line =
      is_tag-address line sig r (sym (trim_space-blank line) ∙ b) in
    let blank : is_empty (trim_space x) ≡ false =
      trim_space-blank x ∙ all_space-address (trim_returns line) r sig in
    not_both (is_tag x) (is_empty (trim_space x)) (tag ∙ t) blank
  where
    not_both : (p q : Bool) → p ≡ false → q ≡ false → (not p && not q) ≡ true
    not_both false false e f = refl
    not_both true q e f = cc
    not_both false true e f = cc

is_address-stamp_line : (sig line : Text) → is_address (stamp_line sig line) ≡ is_address line
unfolding LineKind
is_address-stamp_line sig line = elim (line_kind sig line) [
  | inl (t, e) ↦
      let u : is_tag (stamp_line sig line) ≡ true = ap is_tag e ∙ is_tag-stamp_tag sig line t in
      ground (arith, t, u)
  | inr (inl (t, b, e)) ↦ ap is_address e ∙ is_address-grown sig line t b ∙ ground (arith, t, b)
  | inr (inr (t, b, e)) ↦ ap is_address e
]

trim_returns-stamp_line :
    (sig line : Text)
    → is_address line ≡ true
    → trim_returns (stamp_line sig line) ≡ add_query (trim_returns line) sig
unfolding LineKind
trim_returns-stamp_line sig line h = elim (line_kind sig line) [
  | inl (t, e) ↦ absurd (ground (arith, t, h))
  | inr (inl (t, b, e)) ↦
      ap trim_returns e
      ∙ trim_returns-address (trim_returns line) (drop (length (trim_returns line)) line) sig
          (trim_returns-rest line)
  | inr (inr (t, b, e)) ↦ absurd (ground (arith, t, b, h))
]

addresses_of_lines :
    (sig : Text) (ls : List Text)
    → map trim_returns (filter_by is_address (map (stamp_line sig) ls))
      ≡ map (λ uri. add_query uri sig) (map trim_returns (filter_by is_address ls))
unfolding filter_by
addresses_of_lines sig [] = refl
addresses_of_lines sig (l ∷ ls) = elim (Bool-cases (is_address l)) [
  | inl e ↦
      rw (is_address-stamp_line sig l, e)
        (ap (λ u. u ∷ map trim_returns (filter_by is_address (map (stamp_line sig) ls)))
            (trim_returns-stamp_line sig l e)
          ∙ ap (◌∷◌ (add_query (trim_returns l) sig)) (addresses_of_lines sig ls))
  | inr e ↦ rw (is_address-stamp_line sig l, e) (addresses_of_lines sig ls)
]

map-HasNoFeed :
    (sig : Text) (ls : List Text) → All HasNoFeed ls → All HasNoFeed (map (stamp_line sig) ls)
map-HasNoFeed sig [] h = tt
map-HasNoFeed sig (l ∷ ls) h = (stamp_line-HasNoFeed sig l h.0, map-HasNoFeed sig ls h.1)

-- A player that fetches the addresses of a stamped playlist fetches those of the playlist, in order, each
-- with the token behind its query: no address is lost, split, changed otherwise or made up, whatever the
-- playlist and the token hold.
pub addresses-sign_playlist_uris :
    (playlist sig : Text)
    → addresses (sign_playlist_uris playlist sig)
      ≡ map (λ uri. add_query uri sig) (addresses playlist)
unfolding addresses sign_playlist_uris lines
addresses-sign_playlist_uris playlist sig =
    let l : Text = (split_lines playlist).0 in
    let ls : List Text = (split_lines playlist).1 in
    let same : split_lines (join_lines (map (stamp_line sig) (l ∷ ls)))
        ≡ (stamp_line sig l, map (stamp_line sig) ls) =
      lines-join_lines (stamp_line sig l) (map (stamp_line sig) ls)
        (map-HasNoFeed sig (l ∷ ls) (split_lines-HasNoFeed playlist)) in
    ap (λ (x : Text × List Text). map trim_returns (filter_by is_address (x.0 ∷ x.1))) same
    ∙ addresses_of_lines sig (l ∷ ls)
