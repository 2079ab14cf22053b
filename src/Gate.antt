-- ===== src/Gate.antt =====
-- centsys_packets.go: the packets of the gate's operator, and what its reports say.
--
-- Bytes are numbers below 256. The parts of a local time, which Go's `time` computes, are arguments.
pub mod Packets
pub mod Controller
mod Examples
use Prim.Native.Nat.{bit_xor, bit_or}
use camonitor.Prelude.{
  ℕ, zero, suc, ◌+◌, ◌-◌, ◌*◌, ◌/◌, ◌%◌, ◌^◌, Bool, true, false, not, List, [], ◌∷◌, ◌++◌, Option,
  none, some, ltb, leb, ◌==◌, if◌then◌else◌, length, get_or, drop, Text, filter_by,
}

abbrev pub activation_trg : ℕ
activation_trg = 34

abbrev pub centsys_base_key : Text
centsys_base_key = 0x38 ∷ 0x98 ∷ 0x3f ∷ 0xba ∷ 0x4d ∷ 0xbf ∷ 0xab ∷ 0x9c ∷ []

-- The key's bytes from the `i`th on, `n` of them.
key_from : Text → ℕ → ℕ → Text
key_from mac4 i zero = []
key_from mac4 i (suc n) =
    (if ltb i 4
      then bit_xor (get_or centsys_base_key i 0) (get_or mac4 i 0)
      else get_or centsys_base_key i 0)
    ∷ key_from mac4 (suc i) n

unfoldable pub centsys_key : Text → Text
unfolding key_from
centsys_key mac4 = key_from mac4 0 8

xor_from : ℕ → Text → Text → Text
xor_from i [] key = []
xor_from i (b ∷ bs) key = bit_xor b (get_or key (i % length key) 0) ∷ xor_from (suc i) bs key

unfoldable pub centsys_xor : Text → Text → Text
unfolding xor_from
centsys_xor data_bytes key = xor_from 0 data_bytes key

abbrev pub centsys_header : ℕ → Text
centsys_header packet_type = 1 ∷ 1 ∷ packet_type ∷ 0 ∷ []

-- `uint32(s[idx] - '0')`, a difference of bytes.
abbrev phone_digit : Text → ℕ → ℕ
phone_digit s i = (get_or s i 0 + 256 - 48) % 256

-- The digits `i` to `i + n - 1` from the right, each a half byte, the first of them highest.
phone_word : Text → ℕ → ℕ → ℕ
phone_word s i zero = 0
phone_word s i (suc n) =
    bit_or (if ltb i (length s) then (phone_digit s (length s - i - 1) * 16 ^ n) % 2 ^ 32 else 0)
      (phone_word s (suc i) n)

-- `lower`, `mid` and `upper`.
unfoldable pub phone_parts : Text → ℕ × ℕ × ℕ
unfolding phone_word
phone_parts phone =
    let s = filter_by (λ c. not (c == b'+')) phone in
    (phone_word s 16 8, phone_word s 8 8, phone_word s 0 8)

-- `binary.LittleEndian.PutUint32`
abbrev pub put_uint32 : ℕ → Text
put_uint32 v = v % 256 ∷ (v / 256) % 256 ∷ (v / 65536) % 256 ∷ (v / 16777216) % 256 ∷ []

unfoldable pub build_cmd01 : Text → Text → Text
unfolding phone_parts centsys_xor centsys_key
build_cmd01 phone mac4 =
    let (lo, mid, up) = phone_parts phone in
    centsys_header 1
    ++ centsys_xor (put_uint32 lo ++ (put_uint32 mid ++ put_uint32 up)) (centsys_key mac4)

-- A local time: `weekday` counts from Sunday, `month` from 1.
pub record Civil : Type 0 where
  pub second : ℕ
  pub minute : ℕ
  pub hour : ℕ
  pub weekday : ℕ
  pub day : ℕ
  pub month : ℕ
  pub year : ℕ

unfoldable pub build_cmd05 : Text → Civil → Text
unfolding centsys_xor centsys_key
build_cmd05 mac4 t =
    centsys_header 5
    ++ centsys_xor
        (t.second
          ∷ t.minute
          ∷ t.hour
          ∷ (t.weekday + 6) % 7
          ∷ t.day
          ∷ (t.month - 1)
          ∷ (t.year + 256 * 8 - 2000) % 256
          ∷ 0
          ∷ [])
        (centsys_key mac4)

unfoldable pub build_cmd03_prefix : Text → ℕ → Text
unfolding centsys_xor centsys_key
build_cmd03_prefix mac4 config_version =
    centsys_header 3
    ++ centsys_xor (config_version % 256 ∷ 0 ∷ activation_trg ∷ 0 ∷ []) (centsys_key mac4)

-- The response code and the configuration's version; `none` where the payload is too short.
unfoldable pub decode_cmd04 : Text → Text → Option (ℕ × ℕ)
unfolding centsys_xor centsys_key
decode_cmd04 mac4 payload =
    if ltb (length payload) 6
    then none
    else let body = centsys_xor (drop 4 payload) (centsys_key mac4) in
      some (get_or body 1 0, get_or body 0 0)

pub data GateStatus : Type 0 where
  gate_open gate_closed gate_opening gate_closing gate_stopped gate_unknown : GateStatus

-- The maps of the two families. A byte that a Go map does not have reads as the zero of its type,
-- which is `gateOpen`.
abbrev pub slider_status : ℕ → GateStatus
slider_status b =
    if b == 1
    then gate_closed
    else if (b == 2)
    then gate_stopped
    else if b == 3
    then gate_stopped
    else if b == 4
    then gate_opening
    else if b == 5
    then gate_closing
    else gate_open

abbrev pub garage_status : ℕ → GateStatus
garage_status b =
    if b == 2
    then gate_opening
    else if b == 3
    then gate_closed
    else if b == 4
    then gate_closing
    else if b == 5
    then gate_stopped
    else gate_open

unfoldable pub decode_overview : Text → GateStatus
decode_overview payload =
    if ltb (length payload) 4
    then gate_unknown
    else if length (drop 4 payload) == 24
    then garage_status (get_or (drop 4 payload) 12 0)
    else if leb 36 (length (drop 4 payload))
    then slider_status (get_or (drop 4 payload) 22 0)
    else gate_unknown
