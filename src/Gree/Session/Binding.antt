-- ===== src/Gree/Session/Binding.antt =====
-- gree.go: what a handshake that succeeds or fails leaves in the client.
use mathlib.Core.List.{Memᴰ}
use camonitor.Prelude.{
  ◌≡◌, refl, Bool, true, false, inl, inr, ◌⊎◌, List, [], ◌∷◌, Option, none, some, arith, Bool-cases,
  Option-cases, ap, ◌∙◌, sym, Text, codes, is_empty, text_eq_iff, text_eq-to, ==_iff,
}
use camonitor.Gree.{
  gree_generic_key, gree_normalize_mac, Json, Object, text_at, Addr, same_addr, GreeClient,
  send_target, broadcast_addr,
}
use camonitor.Gree.Cipher.{Aes}
use camonitor.Gree.Session.{
  Failure, failed, is_timeout, Result, ok, err, Turn, datagram, no_datagram, done, open_pack,
  is_our_unit, found_at, scan_replies, discover, read_reply, Exchange, bind, Handshake,
  scan_and_bind, from_unit, cid_of, bind_key, after_first, after_second,
}
use camonitor.Gree.Session.Discovery.{scan_exact}

same_addr-to : (a b : Addr) → same_addr a b ≡ true → a ≡ b
unfolding same_addr
same_addr-to a b h = ground (arith, text_eq_iff a.ip b.ip, ==_iff a.port b.port)

module _ (json : Json) (aes : Aes) where
  -- A datagram of the unit among the turns that opens to the object.
  abbrev pub RepliedIn : Text → Option Addr → List Turn → Object → Type 0
  RepliedIn key unit turns inner =
      (payload : Text) × (src : Addr) × Memᴰ (datagram payload src) turns
      × (unit ≡ some src)
      × (open_pack json aes key payload ≡ some inner)

  later_reply :
      (key : Text) (unit : Option Addr) (t : Turn) (turns : List Turn) (inner : Object)
      → RepliedIn key unit turns inner
      → RepliedIn key unit (t ∷ turns) inner
  later_reply key unit t turns inner (payload, src, m, from, opens) =
      (payload, src, Memᴰ.tail m, from, opens)

  from_unit-to : (unit : Option Addr) (src : Addr) → from_unit unit src ≡ true → unit ≡ some src
  unfolding from_unit
  from_unit-to none src h = cc
  from_unit-to (some a) src h = ap some (sym (same_addr-to src a h))

  reply_at_turn :
      (key : Text) (unit : Option Addr) (last : Failure) (payload : Text) (src : Addr)
      (turns : List Turn) (inner : Object)
      → read_reply json aes key unit last (datagram payload src ∷ turns) ≡ ok inner
      → (read_reply json aes key unit failed turns ≡ ok inner → RepliedIn key unit turns inner)
      → RepliedIn key unit (datagram payload src ∷ turns) inner
  unfolding read_reply
  reply_at_turn key unit last payload src turns inner h ih =
      elim (Option-cases (open_pack json aes key payload)) [
        | inl fails ↦
            later_reply key unit (datagram payload src) turns inner (ih (ground (arith, h, fails)))
        | inr (got, opens) ↦ elim (Bool-cases (from_unit unit src)) [
          | inl from ↦
              let e : got ≡ inner = ground (arith, h, opens, from) in
              (payload, src, Memᴰ.head refl, from_unit-to unit src from, opens ∙ ap some e)
          | inr elsewhere ↦
              later_reply key unit (datagram payload src) turns inner
                (ih (ground (arith, h, opens, elsewhere)))
        ]
      ]

  replied_in :
      (key : Text) (unit : Option Addr) (last : Failure) (turns : List Turn) (inner : Object)
      → read_reply json aes key unit last turns ≡ ok inner
      → RepliedIn key unit turns inner
  unfolding read_reply
  replied_in key unit last [] inner h = absurd (cc)
  replied_in key unit last (datagram payload src ∷ turns) inner h =
      reply_at_turn key unit last payload src turns inner h (replied_in key unit failed turns inner)
  replied_in key unit last (no_datagram f ∷ turns) inner h =
      later_reply key unit (no_datagram f) turns inner (replied_in key unit f turns inner h)
  replied_in key unit last (done f ∷ turns) inner h = absurd (cc)

  -- The unit at the address answered with the key.
  abbrev pub KeyFrom : Option Addr → Exchange → Text → Type 0
  KeyFrom unit x key =
      (inner : Object) × RepliedIn gree_generic_key unit x.turns inner
      × (text_at (codes "key") inner ≡ key)
      × (is_empty key ≡ false)

  key_in :
      (unit : Option Addr) (x : Exchange) (key : Text) (r : Result Object)
      → read_reply json aes gree_generic_key unit failed x.turns ≡ r
      → bind_key r ≡ ok key
      → KeyFrom unit x key
  unfolding bind_key
  key_in unit x key (err f) e h = absurd (cc)
  key_in unit x key (ok inner) e h =
      (inner, replied_in gree_generic_key unit failed x.turns inner e, ground arith, ground arith)

  key_from :
      (unit : Option Addr) (x : Exchange) (key : Text)
      → bind json aes unit x ≡ ok key
      → KeyFrom unit x key
  unfolding bind
  key_from unit x key h =
      key_in unit x key (read_reply json aes gree_generic_key unit failed x.turns) refl
        (ground arith)

  -- A client that holds a key it was given, where it sends its requests.
  abbrev pub IsBound : Handshake → GreeClient → Type 0
  IsBound h c =
      (key : Text) × (x : Exchange) × (c.key ≡ some key)
      × ((x ≡ h.first_bind (send_target c)) ⊎ (x ≡ h.second_bind (send_target c)))
      × KeyFrom c.addr x key

  second-IsBound :
      (h : Handshake) (c : GreeClient) (broadcast : Bool) (target : Option Addr) (c' : GreeClient)
      (r : Result Text)
      → send_target (record c { broadcast_only = broadcast }) ≡ target
      → bind json aes c.addr (h.second_bind target) ≡ r
      → after_second c broadcast r ≡ (c', none)
      → IsBound h c' × (c'.mac ≡ c.mac) × (c'.cid ≡ c.cid)
  unfolding after_second send_target
  second-IsBound h c broadcast target c' (err f) t e s = absurd (cc)
  second-IsBound h c broadcast target c' (ok key) t e s =
      let same : record c { broadcast_only = broadcast; key = some key } ≡ c' = ap (λ p. p.0) s in
      rw (← same) (
        ((
          key,
          h.second_bind target,
          refl,
          inr (ap h.second_bind (sym t)),
          key_from c.addr (h.second_bind target) key e,
        )),
        refl,
        refl,
      )

  first-IsBound :
      (h : Handshake) (c c' : GreeClient) (r : Result Text)
      → bind json aes c.addr (h.first_bind (send_target c)) ≡ r
      → after_first json aes c h.second_bind r ≡ (c', none)
      → IsBound h c' × (c'.mac ≡ c.mac) × (c'.cid ≡ c.cid)
  unfolding after_first send_target
  first-IsBound h c c' (ok key) e s =
      let same : record c { key = some key } ≡ c' = ap (λ p. p.0) s in
      rw (← same) (
        ((
          key,
          h.first_bind (send_target c),
          refl,
          inl refl,
          key_from c.addr (h.first_bind (send_target c)) key e,
        )),
        refl,
        refl,
      )
  first-IsBound h c c' (err f) e s = elim (Bool-cases c.broadcast_only) [
    | inl b ↦
        second-IsBound h c false c.addr c' (bind json aes c.addr (h.second_bind c.addr)) refl refl
          (ground (arith, b, s))
    | inr b ↦ elim (Bool-cases (is_timeout f)) [
      | inl t ↦
          second-IsBound h c true (some (broadcast_addr c)) c'
            (bind json aes c.addr (h.second_bind (some (broadcast_addr c)))) refl refl
            (ground (arith, b, s, t))
      | inr t ↦ absurd (ground (arith, b, s, t))
    ]
  ]

  found_ours :
      (c : GreeClient) (turns : List Turn) (found : GreeClient)
      → scan_replies json aes c turns ≡ some found
      → is_empty c.mac ≡ false
      → gree_normalize_mac found.cid ≡ c.mac
  unfolding is_our_unit found_at
  found_ours c turns found h named =
      let (before, payload, src, inner, after, split, strangers, opens, ours, e) =
        (scan_exact json aes c turns found).0 h in
      ap (λ (d : GreeClient). gree_normalize_mac d.cid) e
      ∙ text_eq-to (gree_normalize_mac (cid_of inner)) c.mac (ground (arith, ours, named))

  discovered :
      (socket : Bool) (reached : Text → Bool) (turns : List Turn) (c found : GreeClient)
      → discover json aes socket reached turns c ≡ some found
      → scan_replies json aes c turns ≡ some found
  unfolding discover
  discovered socket reached turns c found h = ground arith

  IsBound-after :
      (h : Handshake) (c c' : GreeClient) (o : Option GreeClient)
      → discover json aes h.socket h.reached h.scan c ≡ o
      → scan_and_bind json aes h c ≡ (c', none)
      → is_empty c.mac ≡ false
      → (gree_normalize_mac c'.cid ≡ c.mac) × IsBound h c'
  unfolding scan_and_bind
  IsBound-after h c c' none e s named = absurd (cc)
  IsBound-after h c c' (some found) e s named =
      let first : after_first json aes found h.second_bind
            (bind json aes found.addr (h.first_bind (send_target found)))
          ≡ (c', none) =
        ground (arith, e, s) in
      let (kept, mac, cid) = first-IsBound h found c' _ refl first in
      (
        ap gree_normalize_mac cid
            ∙ found_ours c h.scan found (discovered h.socket h.reached h.scan c found e) named,
        kept,
      )

  -- A handshake that succeeds, where an address is configured, has found the unit of that address, and
  -- holds a key that is not empty, from a reply that opened under the generic key and came from the place
  -- that the scan had found. That reply answered a bind sent to where the client sends its requests from
  -- then on, whether by unicast or by broadcast.
  pub handshake_binds :
      (h : Handshake) (c c' : GreeClient)
      → scan_and_bind json aes h c ≡ (c', none)
      → is_empty c.mac ≡ false
      → (gree_normalize_mac c'.cid ≡ c.mac) × IsBound h c'
  handshake_binds h c c' s named =
      IsBound-after h c c' (discover json aes h.socket h.reached h.scan c) refl s named
