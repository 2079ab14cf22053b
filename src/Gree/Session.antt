-- ===== src/Gree/Session.antt =====
-- gree.go: the scan that finds the unit, the bind that fetches its key, and a request with its reply.
--
-- What the network does is an argument: whether the socket and the targets take a packet, and what the
-- socket yields, turn by turn, until the deadline of the operation, which is the end of the list. One call
-- runs at a time: between `ensureKey` and the rest of `request` no other call resets the client.
pub mod Discovery
pub mod Binding
use camonitor.Prelude.{
  ℕ, ◌≡◌, Bool, true, false, not, ◌&&◌, ◌||◌, List, [], ◌∷◌, Option, none, some, if◌then◌else◌, pos,
  Text, codes, is_empty, text_eq, Map,
}
use camonitor.Gree.{
  gree_generic_key, gree_normalize_mac, Json, Object, Scalar, text, number, Value, scalar, array,
  text_at, Addr, same_addr, GreeClient, broadcast_addr, send_target,
}
use camonitor.Gree.Cipher.{Aes, gree_encrypt, gree_decrypt}

-- Whether an error is a network timeout, as `isTimeout` asks.
pub data Failure : Type 0 where
  timed_out : Failure
  failed : Failure

abbrev pub is_timeout : Failure → Bool
is_timeout timed_out = true
is_timeout failed = false

pub data Result (A : Type 0) : Type 0 where
  ok : A → Result A
  err : Failure → Result A

-- One turn of a reading loop: a datagram, a read that fails, or a context that is done.
pub data Turn : Type 0 where
  datagram : Text → Addr → Turn
  no_datagram : Failure → Turn
  done : Failure → Turn

-- Whether a request is taken, and the turns of the reading loop after it.
pub record Exchange : Type 0 where
  pub sent : Bool
  pub turns : List Turn

-- What the network answers; the answer to a bind may depend on where it is sent.
pub record Handshake : Type 0 where
  pub socket : Bool
  pub reached : Text → Bool
  pub scan : List Turn
  pub first_bind : Option Addr → Exchange
  pub second_bind : Option Addr → Exchange

cid_of : Object → Text
cid_of inner =
    if is_empty (text_at (codes "cid") inner)
    then text_at (codes "mac") inner
    else text_at (codes "cid") inner

unfoldable pub is_our_unit : GreeClient → Object → Bool
unfolding cid_of
is_our_unit c inner =
    not (is_empty (cid_of inner))
    && (is_empty c.mac || text_eq (gree_normalize_mac (cid_of inner)) c.mac)

-- The client that has found its unit.
unfoldable pub found_at : GreeClient → Object → Addr → GreeClient
unfolding cid_of
found_at c inner src = record c { addr = some src; cid = cid_of inner }

-- Whether each target takes the scan.
all_reached : (Text → Bool) → List Text → Bool
all_reached reached [] = true
all_reached reached (t ∷ ts) = reached t && all_reached reached ts

from_unit : Option Addr → Addr → Bool
from_unit none src = false
from_unit (some a) src = same_addr src a

bind_key : Result Object → Result Text
bind_key (err f) = err f
bind_key (ok inner) =
    if is_empty (text_at (codes "key") inner) then err failed else ok (text_at (codes "key") inner)

abbrev bound : GreeClient → Bool → Text → GreeClient × Option Failure
bound c broadcast key = (record c { broadcast_only = broadcast; key = some key }, none)

-- The second attempt goes the other way, and a success is remembered.
after_second : GreeClient → Bool → Result Text → GreeClient × Option Failure
after_second c broadcast (ok key) = bound c broadcast key
after_second c broadcast (err f) = (c, some f)

-- The packet of a request: the envelope that carries the pack.
abbrev envelope : Text → Text → Object
envelope cid pack =
    (codes "cid", scalar (text (codes "app")))
    ∷ (codes "i", scalar (number (pos 0)))
    ∷ (codes "t", scalar (text (codes "pack")))
    ∷ (codes "uid", scalar (number (pos 0)))
    ∷ (codes "tcid", scalar (text cid))
    ∷ (codes "pack", scalar (text pack))
    ∷ []

-- Where the packet goes, and the packet.
abbrev pub Sent : Type 0
Sent = List (Option Addr × Text)

abbrev key_text : Option Text → Text
key_text none = []
key_text (some k) = k

module _ (json : Json) (aes : Aes) where
  -- The inner object of an envelope.
  unfoldable pub open_pack : Text → Text → Option Object
  open_pack key payload = elim (json.unmarshal payload) [
    | none ↦ none
    | some outer ↦
        if is_empty (text_at (codes "pack") outer)
        then none
        else elim (gree_decrypt aes (text_at (codes "pack") outer) key) [
          | none ↦ none
          | some plaintext ↦ json.unmarshal plaintext
        ]
  ]

  unfoldable pub scan_replies : GreeClient → List Turn → Option GreeClient
  scan_replies c [] = none
  scan_replies c (done f ∷ turns) = none
  scan_replies c (no_datagram f ∷ turns) = none
  scan_replies c (datagram payload src ∷ turns) =
      let later = scan_replies c turns in
      elim (open_pack gree_generic_key payload) [
        | none ↦ none
        | some inner ↦ if is_our_unit c inner then some (found_at c inner src) else later
      ]

  unfoldable pub discover : Bool → (Text → Bool) → List Turn → GreeClient → Option GreeClient
  unfolding all_reached
  discover socket reached turns c =
      if not socket
      then none
      else if not (all_reached reached c.scan_targets)
      then none
      else scan_replies c turns

  -- The last error stands for the deadline.
  unfoldable pub read_reply : Text → Option Addr → Failure → List Turn → Result Object
  unfolding from_unit
  read_reply key unit last [] = err last
  read_reply key unit last (done f ∷ turns) = err f
  read_reply key unit last (no_datagram f ∷ turns) = read_reply key unit f turns
  read_reply key unit last (datagram payload src ∷ turns) =
      let later = read_reply key unit failed turns in
      elim (open_pack key payload) [
        | none ↦ later
        | some inner ↦ if from_unit unit src then ok inner else later
      ]

  -- A bind that was sent to the target whose answers these are.
  unfoldable pub bind : Option Addr → Exchange → Result Text
  unfolding bind_key
  bind unit x =
      if x.sent then bind_key (read_reply gree_generic_key unit failed x.turns) else err failed

  after_first : GreeClient → (Option Addr → Exchange) → Result Text → GreeClient × Option Failure
  unfolding after_second
  after_first c second (ok key) = bound c c.broadcast_only key
  after_first c second (err f) =
      if c.broadcast_only
      then after_second c false (bind c.addr (second c.addr))
      else if is_timeout f
      then after_second c true (bind c.addr (second (some (broadcast_addr c))))
      else (c, some f)

  unfoldable pub scan_and_bind : Handshake → GreeClient → GreeClient × Option Failure
  unfolding after_first
  scan_and_bind h c = elim (discover h.socket h.reached h.scan c) [
    | none ↦ (c, some failed)
    | some found ↦
        after_first found h.second_bind (bind found.addr (h.first_bind (send_target found)))
  ]

  unfoldable pub ensure_key : Handshake → GreeClient → GreeClient × Option Failure
  ensure_key h c = elim c.key [ none ↦ scan_and_bind h c | some k ↦ (c, none) ]

  exchange : GreeClient → Exchange → Object → Result Object × Sent
  exchange c x inner = elim (gree_encrypt aes (json.marshal inner) (key_text c.key)) [
    | none ↦ (err failed, [])
    | some pack ↦
        if x.sent
        then (
          read_reply (key_text c.key) c.addr failed x.turns,
          (send_target c, json.marshal (envelope c.cid pack)) ∷ [],
        )
        else (err failed, [])
  ]

  unfoldable pub request :
      Handshake → Exchange → Object → GreeClient → GreeClient × Result Object × Sent
  unfolding exchange ensure_key
  request h x inner c = elim (ensure_key h c).1 [
    | some f ↦ ((ensure_key h c).0, err f, [])
    | none ↦ (
      (ensure_key h c).0,
      (exchange (ensure_key h c).0 x inner).0,
      (exchange (ensure_key h c).0 x inner).1,
    )
  ]
