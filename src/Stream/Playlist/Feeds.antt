-- ===== src/Stream/Playlist/Feeds.antt =====
-- streamapi.go: the line feeds of a playlist, when it is split at them and stamped.
use camonitor.Prelude.{
  ℕ, zero, suc, ◌+◌, ◌≡◌, ◌∙◌, refl, sym, ap, false, inl, inr, List, [], ◌∷◌, ◌++◌, some, arith,
  ◌==◌, Bool-cases, Option-cases, All, length, Text, codes, contains, cut, cut_prefix,
  append-cut_prefix,
}
use camonitor.Stream.Playlist.{add_query, split_lines, join_lines, uri_attr, stamp_tag}
use camonitor.Stream.Playlist.Blanks.{contains-append, IsLineEnd, query_escape-lacks}

unfoldable pub HasNoFeed : Text → Type 0
HasNoFeed line = contains 10 line ≡ false

-- `lines` and `join_lines`.
split_lines-line : (l : Text) → HasNoFeed l → split_lines l ≡ (l, [])
unfolding split_lines HasNoFeed
split_lines-line [] h = refl
split_lines-line (c ∷ l) h = ground (arith, split_lines-line l)

split_lines-append :
    (l s : Text)
    → HasNoFeed l
    → split_lines (l ++ (10 ∷ s)) ≡ (l, (split_lines s).0 ∷ (split_lines s).1)
unfolding split_lines HasNoFeed
split_lines-append [] s h = refl
split_lines-append (c ∷ l) s h = ground (arith, split_lines-append l s)

pub lines-join_lines :
    (l : Text) (ls : List Text)
    → All HasNoFeed (l ∷ ls)
    → split_lines (join_lines (l ∷ ls)) ≡ (l, ls)
unfolding join_lines
lines-join_lines l [] h = split_lines-line l h.0
lines-join_lines l (m ∷ ls) h =
    split_lines-append l (join_lines (m ∷ ls)) h.0
    ∙ ap (λ (x : Text × List Text). (l, x.0 ∷ x.1)) (lines-join_lines m ls h.1)

pub split_lines-HasNoFeed : (s : Text) → All HasNoFeed ((split_lines s).0 ∷ (split_lines s).1)
unfolding split_lines HasNoFeed
split_lines-HasNoFeed [] = (refl, tt)
split_lines-HasNoFeed (c ∷ s) = elim (Bool-cases (c == 10)) [
  | inl e ↦ rw e (refl, split_lines-HasNoFeed s)
  | inr e ↦ let (a, b) = split_lines-HasNoFeed s in rw e (ground (arith, e, a), b)
]

pub add_query-lacks :
    (uri sig : Text) (d : ℕ)
    → IsLineEnd d
    → contains d uri ≡ false
    → contains d (add_query uri sig) ≡ false
unfolding add_query
add_query-lacks uri sig d (inl e) u =
    contains-append d uri _ ∙ ground (arith, u, e, query_escape-lacks sig d (inl e))
add_query-lacks uri sig d (inr e) u =
    contains-append d uri _ ∙ ground (arith, u, e, query_escape-lacks sig d (inr e))

-- A tag stays one, and grows no line feed.
cut-HasNoFeed : (c : ℕ) (s : Text) → HasNoFeed s → HasNoFeed (cut c s).0
unfolding cut HasNoFeed
cut-HasNoFeed c [] h = refl
cut-HasNoFeed c (b ∷ s) h = ground (arith, cut-HasNoFeed c s)

uri_attr-HasNoFeed : (s uri : Text) → HasNoFeed s → uri_attr s ≡ some uri → HasNoFeed uri
unfolding uri_attr HasNoFeed
uri_attr-HasNoFeed s uri h e = elim (Option-cases (cut_prefix (codes "URI=\"") s)) [
  | inl p ↦ absurd (ground (arith, p, e))
  | inr (rest, p) ↦
      let whole : contains 10 (codes "URI=\"" ++ rest) ≡ false =
        ap (contains 10) (sym (append-cut_prefix (codes "URI=\"") s rest p)) ∙ h in
      let clean : HasNoFeed (cut b'"' rest).0 =
        cut-HasNoFeed b'"' rest (sym (contains-append 10 (codes "URI=\"") rest) ∙ whole) in
      let same : (cut b'"' rest).0 ≡ uri = ground (arith, p, e) in
      ap (contains 10) (sym same) ∙ clean
]

pub stamp_tag-HasNoFeed :
    (sig : Text) (skip : ℕ) (s : Text) → HasNoFeed s → HasNoFeed (stamp_tag sig skip s)
unfolding stamp_tag HasNoFeed
stamp_tag-HasNoFeed sig skip [] h = refl
stamp_tag-HasNoFeed sig (suc skip) (c ∷ s) h = stamp_tag-HasNoFeed sig skip s (ground arith)
stamp_tag-HasNoFeed sig zero (c ∷ s) h = elim (Option-cases (uri_attr (c ∷ s))) [
  | inl e ↦ rw (e, stamp_tag) (ground (arith, stamp_tag-HasNoFeed sig 0 s))
  | inr (uri, e) ↦
      let after : Text = b'"' ∷ stamp_tag sig (5 + length uri) s in
      let a : contains 10 (add_query uri sig) ≡ false =
        add_query-lacks uri sig 10 (inl refl) (uri_attr-HasNoFeed (c ∷ s) uri h e) in
      let b : contains 10 after ≡ false =
        stamp_tag-HasNoFeed sig (5 + length uri) s (ground arith) in
      let whole : contains 10 (add_query uri sig ++ after) ≡ false =
        contains-append 10 (add_query uri sig) after ∙ ground (arith, a, b) in
      rw (e, stamp_tag) whole
]
