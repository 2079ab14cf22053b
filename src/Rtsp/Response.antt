-- ===== src/Rtsp/Response.antt =====
-- rtsp.go: reading one response from the socket.
pub mod Prefix
use camonitor.Prelude.{
  ℕ, zero, suc, ◌+◌, ◌≤◌, ◌≡◌, Bool, true, false, not, ◌||◌, List, [], ◌∷◌, ◌++◌, Option, none,
  some, arith, ltb, ◌==◌, if◌then◌else◌, length, take, drop, Text, codes, is_empty, cut, cut_prefix,
  trim_space, to_lower, Map, lookup, put, ℤ, pos, negsuc,
}
use camonitor.Decimal.{parse_int}

pub record Response : Type 0 where
  pub status_code : ℤ
  pub headers : Map Text
  pub body : Text

abbrev pub text_of : Option Text → Text
text_of none = []
text_of (some t) = t

-- A Go map answers the empty string for a key that it does not hold.
unfoldable pub header : Response → Text → Text
header r name = text_of (lookup (to_lower name) r.headers)

-- `br.ReadString('\n')` without the line feed: the line and what follows it.
unfoldable pub read_line : Text → Option (Text × Text)
read_line [] = none
read_line (c ∷ s) =
    let rest = read_line s in
    if c == 10 then some ([], s) else elim rest [ none ↦ none | some (l, r) ↦ some (c ∷ l, r) ]

abbrev is_line_end : ℕ → Bool
is_line_end c = (c == 13) || (c == 10)

-- `strings.TrimRight(line, "\r\n")`
unfoldable pub trim_line : Text → Text
trim_line [] = []
trim_line (c ∷ s) =
    let rest = trim_line s in
    if is_empty rest then (if is_line_end c then [] else c ∷ []) else c ∷ rest

-- The status code of a status line.
unfoldable pub status_of : Text → Option ℤ
status_of line =
    let (version, after, found) = cut 32 line in
    if not found then none else elim (cut_prefix (codes "RTSP/") version) [
      | none ↦ none
      | some v ↦ parse_int ((cut 32 after).0)
    ]

-- A line without a colon is passed over; of two headers with one name the later stays.
unfoldable pub add_header : Text → Map Text → Map Text
add_header line headers =
    let (before, after, found) = cut b':' line in
    if found then put (to_lower (trim_space before)) (trim_space after) headers else headers

-- The headers up to the empty line, byte by byte: `line` is what has been read of the current one.
unfoldable pub read_headers : Text → Map Text → Text → Option (Map Text × Text)
read_headers line headers [] = none
read_headers line headers (c ∷ s) =
    let rest =
      read_headers (if c == 10 then [] else line ++ c ∷ [])
        (if c == 10 then add_header (trim_line line) headers else headers) s in
    if (c == 10) then (if is_empty (trim_line line) then some (headers, s) else rest) else rest

-- `io.ReadFull` of `n` bytes.
unfoldable pub read_full : ℕ → Text → Option (Text × Text)
read_full n s = if ltb (length s) n then none else some (take n s, drop n s)

abbrev body_of_length : ℤ → Text → Option (Text × Text)
body_of_length (pos n) s = read_full n s
body_of_length (negsuc n) s = some ([], s)

unfoldable pub read_body : Text → Text → Option (Text × Text)
unfolding read_full
read_body content_length s =
    if is_empty content_length
    then some ([], s)
    else elim (parse_int content_length) [ none ↦ none | some n ↦ body_of_length n s ]

-- A response after its status line.
read_rest : ℤ → Text → Option (Response × Text)
read_rest code s = elim (read_headers [] [] s) [
  | none ↦ none
  | some (headers, r) ↦ elim (read_body (text_of (lookup (codes "content-length") headers)) r) [
    | none ↦ none
    | some (body, after) ↦
        some (record { status_code = code; headers = headers; body = body }, after)
  ]
]

-- The response and what follows it.
unfoldable pub read_response : Text → Option (Response × Text)
unfolding read_rest
read_response s = elim (read_line s) [
  | none ↦ none
  | some (line, r) ↦ elim (status_of (trim_line line)) [
    | none ↦ none
    | some code ↦ read_rest code r
  ]
]
