-- ===== src/Config/Valid.antt =====
-- What a loaded configuration is good for.
use camonitor.Prelude.{
  ◌≤◌, ◌≡◌, ◌≢◌, ◌⊎◌, refl, true, false, not, ◌&&◌, inl, inr, List, [], ◌∷◌, Option, none, some,
  arith, ltb, Bool-cases, length, All, All-map, Text, text_eq_iff, is_empty,
}
use camonitor.Config.{
  StreamConfig, GuestConfig, Config, loaded, seen_id, check_streams, no_cameras, or_default,
  check_guest, default_guest, load_config, min_demo_code_len,
}

-- What a stream of a loaded configuration has.
pub record IsUsable (s : StreamConfig) : Type 0 where
  pub named : s.id ≢ []
  pub reachable : (s.host ≢ []) ⊎ (s.rtsp_url_override ≢ [])

-- No two streams have one id.
abbrev pub HasUniqueIds : List StreamConfig → Type 0
HasUniqueIds [] = Unit
HasUniqueIds (s ∷ rest) = All (λ t. t.id ≢ s.id) rest × HasUniqueIds rest

not_empty : (t : Text) → is_empty t ≡ false → t ≢ []
not_empty [] h e = cc
not_empty (c ∷ t) h e = cc

check_stream-IsUsable :
    (seen rest : List StreamConfig) (s : StreamConfig)
    → check_streams seen (s ∷ rest) ≡ none
    → IsUsable s × (seen_id s.id seen ≡ false) × (check_streams (s ∷ seen) rest ≡ none)
unfolding check_streams
check_stream-IsUsable seen rest s h = (
  record { named = not_empty s.id (ground arith); reachable = reach (ground arith) },
  ground arith,
  ground arith,
)
  where
    reach :
        is_empty s.host && is_empty s.rtsp_url_override ≡ false
        → (s.host ≢ []) ⊎ (s.rtsp_url_override ≢ [])
    reach k = elim (Bool-cases (is_empty s.host)) [
      | inl e ↦ inr (not_empty s.rtsp_url_override (ground (arith, e, k)))
      | inr e ↦ inl (not_empty s.host e)
    ]

unseen :
    (s t : StreamConfig) (seen : List StreamConfig) → seen_id t.id (s ∷ seen) ≡ false → t.id ≢ s.id
unseen s t seen h e = ground (arith, text_eq_iff s.id t.id)

unseen_rest :
    (s t : StreamConfig) (seen : List StreamConfig)
    → seen_id t.id (s ∷ seen) ≡ false
    → seen_id t.id seen ≡ false
unseen_rest s t seen h = ground arith

check_streams_ok :
    (seen streams : List StreamConfig)
    → check_streams seen streams ≡ none
    → All IsUsable streams × HasUniqueIds streams × All (λ t. seen_id t.id seen ≡ false) streams
check_streams_ok seen [] h = (tt, tt, tt)
check_streams_ok seen (s ∷ rest) h =
    let (usable, fresh, more) = check_stream-IsUsable seen rest s h in
    let (all_usable, unique, all_fresh) = check_streams_ok (s ∷ seen) rest more in
    (
      (usable, all_usable),
      (
        All-map (λ t. seen_id t.id (s ∷ seen) ≡ false) (λ t. t.id ≢ s.id) rest
            (λ t. unseen s t seen) all_fresh,
        unique,
      ),
      (
        fresh,
        All-map (λ t. seen_id t.id (s ∷ seen) ≡ false) (λ t. seen_id t.id seen ≡ false) rest
            (λ t. unseen_rest s t seen) all_fresh,
      ),
    )

-- What the guest block of a loaded configuration has: a public address, a secret where there are
-- cameras, and no demo code or one of 16 bytes at least.
abbrev pub IsGuestSafe : Option GuestConfig → Type 0
IsGuestSafe none = Unit
IsGuestSafe (some g) =
    (is_empty g.public_base ≡ false)
    × (no_cameras g.cameras ≡ true ⊎ is_empty g.stream_secret ≡ false)
    × ((g.demo_code ≡ []) ⊎ (min_demo_code_len ≤ length g.demo_code))
    × (is_empty g.store_path ≡ false)
    × (is_empty g.audit_path ≡ false)

or_default-not_empty : (s d : Text) → is_empty d ≡ false → is_empty (or_default s d) ≡ false
or_default-not_empty [] d h = h
or_default-not_empty (c ∷ s) d h = refl

demo_code_long :
    (t : Text)
    → not (is_empty t) && ltb (length t) min_demo_code_len ≡ false
    → (t ≡ []) ⊎ (min_demo_code_len ≤ length t)
demo_code_long [] h = inl refl
demo_code_long (c ∷ t) h = inr (ground arith)

check_guest_ok : (g : Option GuestConfig) → check_guest g ≡ none → IsGuestSafe (default_guest g)
unfolding check_guest default_guest
check_guest_ok none h = tt
check_guest_ok (some g) h = (
  ground arith,
  ground arith,
  demo_code_long g.demo_code (ground arith),
  or_default-not_empty g.store_path _ refl,
  or_default-not_empty g.audit_path _ refl,
)

-- A configuration that loads has a stream, each stream an id of its own and an address, and a guest
-- block that is safe to serve.
pub load_config_valid :
    (c c' : Config)
    → load_config c ≡ loaded c'
    → (c'.streams ≢ []) × All IsUsable c'.streams × HasUniqueIds c'.streams × IsGuestSafe c'.guest
unfolding load_config
load_config_valid c c' h =
    let streams : c'.streams ≡ c.streams = ground arith in
    let guest : c'.guest ≡ default_guest c.guest = ground arith in
    let (usable, unique, _) = check_streams_ok [] c.streams (ground arith) in
    (
      (λ e. ground arith),
      rw streams usable,
      rw streams unique,
      rw guest (check_guest_ok c.guest (ground arith)),
    )
