-- ===== src/Guest/Source.antt =====
-- guestsource.go: where a guest's request came from.
use camonitor.Prelude.{
  ℕ, ◌+◌, ◌-◌, ◌≤◌, Bool, false, [], ◌∷◌, Option, none, some, arith, ltb, ◌==◌, if◌then◌else◌,
  Bool-cases, inl, inr, length, take, drop, length-take, Text, is_empty, contains, index_of,
  last_index_of, cut, trim_space,
}

abbrev pub max_device_len : ℕ
max_device_len = 120

-- What the handlers read of a request: three headers and the peer's address.
pub record Request : Type 0 where
  pub authorization : Text
  pub forwarded_for : Text
  pub user_agent : Text
  pub remote_addr : Text

-- The host of `net.SplitHostPort`, or its error.
bracketed_host : Text → ℕ → Option Text
bracketed_host s colon = elim (index_of b']' s) [
  | none ↦ none
  | some close ↦
      if close + 1 == colon
      then if contains b'[' (drop 1 s)
        then none
        else if contains b']' (drop (close + 1) s)
        then none
        else some (take (close - 1) (drop 1 s))
      else none
]

plain_host : Text → ℕ → Option Text
plain_host s colon =
    if contains b':' (take colon s)
    then none
    else if contains b'[' s
    then none
    else if contains b']' s
    then none
    else some (take colon s)

abbrev starts_bracket : Text → Bool
starts_bracket [] = false
starts_bracket (c ∷ s) = c == b'['

unfoldable pub split_host : Text → Option Text
unfolding bracketed_host plain_host
split_host s = elim (last_index_of b':' s) [
  | none ↦ none
  | some colon ↦ if starts_bracket s then bracketed_host s colon else plain_host s colon
]

abbrev or_else : Option Text → Text → Text
or_else none t = t
or_else (some s) t = s

unfoldable pub client_ip : Request → Text
unfolding split_host
client_ip r =
    let first_hop =
      if is_empty r.forwarded_for then [] else trim_space (cut b',' r.forwarded_for).0 in
    if is_empty first_hop then or_else (split_host r.remote_addr) r.remote_addr else first_hop

unfoldable pub client_device : Request → Text
client_device r =
    let device = trim_space r.user_agent in
    if ltb max_device_len (length device) then take max_device_len device else device

unfoldable pub client_source : Request → Text × Text
unfolding client_ip client_device
client_source r = (client_ip r, client_device r)

length-capped :
    (t : Text)
    → length (if ltb max_device_len (length t) then take max_device_len t else t) ≤ max_device_len
length-capped t = elim (Bool-cases (ltb max_device_len (length t))) [
  | inl e ↦ rw e (omega (arith, length-take max_device_len t))
  | inr e ↦ rw e (ground arith)
]

-- What is logged of a device fits in 120 bytes.
pub length-client_device : (r : Request) → length (client_device r) ≤ max_device_len
unfolding client_device
length-client_device r = length-capped (trim_space r.user_agent)
