-- ===== src/Gree/Session/Discovery.antt =====
-- gree.go: which unit a scan finds, and whose replies are read.
use camonitor.Prelude.{
  ◌≡◌, ◌↔◌, refl, true, false, inl, inr, List, [], ◌∷◌, ◌++◌, none, some, Bool-cases, Option-cases,
  ap, ◌∙◌, sym, Text,
}
use camonitor.Gree.{gree_generic_key, Json, Object, Addr, GreeClient}
use camonitor.Gree.Cipher.{Aes}
use camonitor.Gree.Session.{
  Turn, datagram, no_datagram, done, open_pack, is_our_unit, found_at, scan_replies,
}

some_injective : {a b : GreeClient} → some a ≡ some b → a ≡ b
some_injective h = cc

module _ (json : Json) (aes : Aes) where
  -- A datagram that opens under the generic key, of a unit that is not the one looked for.
  abbrev pub IsStranger : GreeClient → Turn → Type 0
  IsStranger c (datagram payload src) =
      (inner : Object) × (open_pack json aes gree_generic_key payload ≡ some inner)
      × (is_our_unit c inner ≡ false)
  IsStranger c (no_datagram f) = ⊥
  IsStranger c (done f) = ⊥

  abbrev pub AllStrangers : GreeClient → List Turn → Type 0
  AllStrangers c [] = Unit {0}
  AllStrangers c (t ∷ ts) = IsStranger c t × AllStrangers c ts

  skip_strangers :
      (c : GreeClient) (before turns : List Turn)
      → AllStrangers c before
      → scan_replies json aes c (before ++ turns) ≡ scan_replies json aes c turns
  unfolding scan_replies
  skip_strangers c [] turns h = refl
  skip_strangers c (datagram payload src ∷ before) turns h =
      let (inner, opens, strange) = h.0 in
      rw (opens, scan_replies) (rw strange (skip_strangers c before turns h.1))
  skip_strangers c (no_datagram f ∷ before) turns h = absurd h.0
  skip_strangers c (done f ∷ before) turns h = absurd h.0

  found_self :
      (c : GreeClient) (payload : Text) (src : Addr) (inner : Object) (after : List Turn)
      → open_pack json aes gree_generic_key payload ≡ some inner
      → is_our_unit c inner ≡ true
      → scan_replies json aes c (datagram payload src ∷ after) ≡ some (found_at c inner src)
  unfolding scan_replies
  found_self c payload src inner after opens ours = rw (opens, scan_replies) (rw ours refl)

  opened_none :
      (c : GreeClient) (payload : Text) (src : Addr) (turns : List Turn)
      → open_pack json aes gree_generic_key payload ≡ none
      → scan_replies json aes c (datagram payload src ∷ turns) ≡ none
  unfolding scan_replies
  opened_none c payload src turns e = rw (e, scan_replies) refl

  -- Where among the turns the unit answers: strangers before it, and the client that has found it.
  abbrev pub FoundIn : GreeClient → List Turn → GreeClient → Type 0
  FoundIn c turns c' =
      (before : List Turn) × (payload : Text) × (src : Addr) × (inner : Object) × (after : List
        Turn)
      × (turns ≡ before ++ (datagram payload src ∷ after))
      × AllStrangers c before
      × (open_pack json aes gree_generic_key payload ≡ some inner)
      × (is_our_unit c inner ≡ true)
      × (c' ≡ found_at c inner src)

  found_of :
      (c : GreeClient) (turns : List Turn) (c' : GreeClient)
      → FoundIn c turns c'
      → scan_replies json aes c turns ≡ some c'
  found_of c turns c' (before, payload, src, inner, after, split, strangers, opens, ours, e) =
      ap (scan_replies json aes c) split
      ∙ skip_strangers c before (datagram payload src ∷ after) strangers
      ∙ found_self c payload src inner after opens ours
      ∙ ap some (sym e)

  later_found :
      (c : GreeClient) (t : Turn) (turns : List Turn) (c' : GreeClient)
      → IsStranger c t
      → FoundIn c turns c'
      → FoundIn c (t ∷ turns) c'
  later_found c t turns c' strange
        (before, payload, src, inner, after, split, strangers, opens, ours, e) =
      (
        t ∷ before,
        payload,
        src,
        inner,
        after,
        ap (◌∷◌ t) split,
        (strange, strangers),
        opens,
        ours,
        e,
      )

  found_at_turn :
      (c : GreeClient) (payload : Text) (src : Addr) (turns : List Turn) (c' : GreeClient)
      → scan_replies json aes c (datagram payload src ∷ turns) ≡ some c'
      → (scan_replies json aes c turns ≡ some c' → FoundIn c turns c')
      → FoundIn c (datagram payload src ∷ turns) c'
  found_at_turn c payload src turns c' h ih =
      elim (Option-cases (open_pack json aes gree_generic_key payload)) [
        | inl fails ↦ absurd (cc (opened_none c payload src turns fails))
        | inr (inner, opens) ↦ elim (Bool-cases (is_our_unit c inner)) [
          | inl ours ↦ (
            [],
            payload,
            src,
            inner,
            turns,
            refl,
            tt,
            opens,
            ours,
            some_injective (sym h ∙ found_self c payload src inner turns opens ours),
          )
          | inr strange ↦
              later_found c (datagram payload src) turns c' (inner, opens, strange)
                (ih (
                  sym (
                    skip_strangers c (datagram payload src ∷ []) turns
                      ((inner, opens, strange), tt))
                  ∙ h))
        ]
      ]

  found_in :
      (c : GreeClient) (turns : List Turn) (c' : GreeClient)
      → scan_replies json aes c turns ≡ some c'
      → FoundIn c turns c'
  found_in c [] c' h = absurd (unfold scan_replies in cc)
  found_in c (datagram payload src ∷ turns) c' h =
      found_at_turn c payload src turns c' h (found_in c turns c')
  found_in c (no_datagram f ∷ turns) c' h = absurd (unfold scan_replies in cc)
  found_in c (done f ∷ turns) c' h = absurd (unfold scan_replies in cc)

  pub scan_exact :
      (c : GreeClient) (turns : List Turn) (c' : GreeClient)
      → (scan_replies json aes c turns ≡ some c') ↔ FoundIn c turns c'
  scan_exact c turns c' = (found_in c turns c', found_of c turns c')
