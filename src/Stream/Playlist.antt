-- ===== src/Stream/Playlist.antt =====
-- streamapi.go: the stamping of a playlist's URIs with the session's token.

pub mod Blanks
pub mod Feeds
pub mod Stamped
use camonitor.Prelude.{
  ℕ, zero, suc, ◌+◌, ◌/◌, ◌%◌, Bool, false, not, ◌&&◌, ◌||◌, List, [], ◌∷◌, ◌++◌, map, Option, none,
  some, ltb, ◌==◌, if◌then◌else◌, length, get_or, drop, Text, codes, is_empty, cut_prefix, cut,
  contains, trim_space,
}

-- `url.QueryEscape`
abbrev pub is_unreserved : ℕ → Bool
is_unreserved c =
    (ltb 47 c && ltb c 58)
    || (ltb 64 c && ltb c 91)
    || (ltb 96 c && ltb c 123)
    || (c == b'-')
    || (c == b'_')
    || (c == b'.')
    || (c == b'~')

abbrev pub upper_hex : ℕ → ℕ
upper_hex d = get_or (codes "0123456789ABCDEF") d 0

pub escape_byte : ℕ → Text
escape_byte c =
    if is_unreserved c
    then c ∷ []
    else if c == 32
    then b'+' ∷ []
    else b'%' ∷ upper_hex (c / 16) ∷ upper_hex (c % 16) ∷ []

unfoldable pub query_escape : Text → Text
unfolding escape_byte
query_escape [] = []
query_escape (c ∷ s) = escape_byte c ++ query_escape s

unfoldable pub add_query : Text → Text → Text
add_query uri sig =
    uri ++ ((if contains b'?' uri then b'&' else b'?') ∷ (codes "s=" ++ query_escape sig))

-- `strings.Split(s, "\n")`: the first line and the others.
pub split_lines : Text → Text × List Text
split_lines [] = ([], [])
split_lines (c ∷ s) =
    let (line, rest) = split_lines s in if c == 10 then ([], line ∷ rest) else (c ∷ line, rest)

unfoldable pub lines : Text → List Text
unfolding split_lines
lines s = let (line, rest) = split_lines s in line ∷ rest

-- `strings.Join(lines, "\n")`
unfoldable pub join_lines : List Text → Text
join_lines [] = []
join_lines (l ∷ []) = l
join_lines (l ∷ m ∷ ls) = l ++ (10 ∷ join_lines (m ∷ ls))

-- `URI="([^"]*)"` at the head of the text: what is between the quotes.
pub uri_attr : Text → Option Text
uri_attr s = elim (cut_prefix (codes "URI=\"") s) [
  | none ↦ none
  | some rest ↦ let (uri, after, found) = cut b'"' rest in if found then some uri else none
]

-- `ReplaceAllStringFunc`: `skip` is what is left of the last match.
pub stamp_tag : Text → ℕ → Text → Text
stamp_tag sig skip [] = []
stamp_tag sig (suc skip) (c ∷ s) = stamp_tag sig skip s
stamp_tag sig zero (c ∷ s) = elim (uri_attr (c ∷ s)) [
  | none ↦ c ∷ stamp_tag sig 0 s
  | some uri ↦ codes "URI=\"" ++ (add_query uri sig ++ (b'"' ∷ stamp_tag sig (5 + length uri) s))
]

-- `strings.TrimRight(line, "\r")`
unfoldable pub trim_returns : Text → Text
trim_returns [] = []
trim_returns (c ∷ s) =
    let rest = trim_returns s in if (c == 13) && is_empty rest then [] else c ∷ rest

abbrev pub is_tag : Text → Bool
is_tag [] = false
is_tag (c ∷ s) = c == b'#'

unfoldable pub stamp_line : Text → Text → Text
unfolding add_query stamp_tag trim_returns uri_attr
stamp_line sig line =
    if is_tag line
    then stamp_tag sig 0 line
    else if not (is_empty (trim_space line))
    then add_query (trim_returns line) sig ++ drop (length (trim_returns line)) line
    else line

unfoldable pub sign_playlist_uris : Text → Text → Text
unfolding lines join_lines stamp_line
sign_playlist_uris playlist sig = join_lines (map (stamp_line sig) (lines playlist))
