-- ===== src/Door/Digest.antt =====
-- digest.go: the digest authentication of HTTP and RTSP. MD5 is a parameter.
use camonitor.Prelude.{
  Bool, false, not, ◌&&◌, ◌||◌, List, [], ◌∷◌, ◌++◌, Option, none, some, ◌==◌, if◌then◌else◌, drop,
  Text, codes, text_eq, is_empty, cut, cut_prefix, trim_space, to_lower, Map, lookup, put,
}
use camonitor.Encoding.{hex}

pub record Md5 : Type 0 where
  pub sum : Text → Text

pub record DigestChallenge : Type 0 where
  pub realm : Text
  pub nonce : Text
  pub qop : Text
  pub opaque : Text

-- The pieces between the commas outside of quotes: the first, and the others.
pieces : Bool → Text → Text × List Text
pieces in_quotes [] = ([], [])
pieces in_quotes (c ∷ s) =
    let (first, rest) = pieces (if c == b'"' then not in_quotes else in_quotes) s in
    if (c == b',') && not in_quotes then ([], first ∷ rest) else (c ∷ first, rest)

-- `TrimPrefix` and `TrimSuffix` of one quote.
abbrev trim_quote : Text → Text
trim_quote [] = []
trim_quote (c ∷ s) = if c == b'"' then s else c ∷ s

trim_last_quote : Text → Text
trim_last_quote [] = []
trim_last_quote (c ∷ s) =
    let rest = trim_last_quote s in if (c == b'"') && is_empty s then [] else c ∷ rest

-- `flush`
flush : Text → Map Text → Map Text
unfolding trim_last_quote
flush piece out =
    let part = trim_space piece in
    let (before, after, found) = cut b'=' part in
    if is_empty part
    then out
    else if found
    then put (to_lower (trim_space before)) (trim_last_quote (trim_quote (trim_space after))) out
    else out

flush_all : List Text → Map Text → Map Text
unfolding flush
flush_all [] out = out
flush_all (p ∷ ps) out = flush_all ps (flush p out)

unfoldable pub split_digest_params : Text → Map Text
unfolding pieces flush_all
split_digest_params s = let (first, rest) = pieces false s in flush_all (first ∷ rest) []

abbrev param : Text → Map Text → Text
param k m = elim (lookup k m) [ none ↦ [] | some v ↦ v ]

abbrev challenge_of : Map Text → DigestChallenge
challenge_of params = record {
  realm = param (codes "realm") params;
  nonce = param (codes "nonce") params;
  qop = param (codes "qop") params;
  opaque = param (codes "opaque") params;
}

abbrev checked : DigestChallenge → Option DigestChallenge
checked c = if is_empty c.realm || is_empty c.nonce then none else some c

-- `none` is an error.
unfoldable pub parse_digest_challenge : Text → Option DigestChallenge
unfolding split_digest_params
parse_digest_challenge header =
    let trimmed = trim_space header in
    elim (cut_prefix (codes "digest ") (to_lower trimmed)) [
      | none ↦ none
      | some _ ↦ checked (challenge_of (split_digest_params (drop 7 trimmed)))
    ]

-- `strings.SplitSeq(qopList, ",")`, and whether a part is `auth`.
comma_parts : Text → Text × List Text
comma_parts [] = ([], [])
comma_parts (c ∷ s) =
    let (first, rest) = comma_parts s in if c == b',' then ([], first ∷ rest) else (c ∷ first, rest)

has_auth : List Text → Bool
has_auth [] = false
has_auth (p ∷ ps) = text_eq (trim_space p) (codes "auth") || has_auth ps

unfoldable pub pick_qop : Text → Text
unfolding comma_parts has_auth
pick_qop qop_list =
    let (first, rest) = comma_parts qop_list in
    if is_empty qop_list then [] else if has_auth (first ∷ rest) then codes "auth" else []

abbrev quoted : Text → Text → Text
quoted k v = k ++ (codes "=\"" ++ (v ++ codes "\""))

-- `strings.Join(parts, ", ")`
join_parts : List Text → Text
join_parts [] = []
join_parts (p ∷ []) = p
join_parts (p ∷ q ∷ ps) = p ++ (codes ", " ++ join_parts (q ∷ ps))

-- `strings.Join(parts, ":")`
colons : List Text → Text
colons [] = []
colons (p ∷ []) = p
colons (p ∷ q ∷ ps) = p ++ (b':' ∷ colons (q ∷ ps))

module _ (d : Md5) where
  unfoldable pub md5_hex : Text → Text
  md5_hex s = hex (d.sum s)

  -- The response's hash, in the form of RFC 2617 or the older one.
  unfoldable pub digest_hash : Text → Text → Text → Text → Text → DigestChallenge → Text
  unfolding md5_hex colons
  digest_hash method uri user pass cnonce c =
      let ha1 = md5_hex (colons (user ∷ c.realm ∷ pass ∷ [])) in
      let ha2 = md5_hex (colons (method ∷ uri ∷ [])) in
      let qop = pick_qop c.qop in
      if is_empty qop
      then md5_hex (colons (ha1 ∷ c.nonce ∷ ha2 ∷ []))
      else md5_hex (colons (ha1 ∷ c.nonce ∷ codes "00000001" ∷ cnonce ∷ qop ∷ ha2 ∷ []))

  -- `cnonce` is the random client nonce.
  unfoldable pub build_digest_response : Text → Text → Text → Text → Text → DigestChallenge → Text
  unfolding digest_hash join_parts
  build_digest_response method uri user pass cnonce c =
      let qop = pick_qop c.qop in
      codes "Digest "
      ++ join_parts (
          (quoted (codes "username") user
            ∷ quoted (codes "realm") c.realm
            ∷ quoted (codes "nonce") c.nonce
            ∷ quoted (codes "uri") uri
            ∷ [])
          ++ ((if is_empty qop
                then []
                else quoted (codes "cnonce") cnonce
                  ∷ codes "nc=00000001"
                  ∷ (codes "qop=" ++ qop)
                  ∷ [])
              ++ ((quoted (codes "response") (digest_hash method uri user pass cnonce c) ∷ [])
                  ++ (if is_empty c.opaque then [] else quoted (codes "opaque") c.opaque ∷ []))))
