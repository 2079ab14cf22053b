-- ===== src/Bell/Ids.antt =====
-- bell.go: the ids of the events.
use camonitor.Prelude.{
  ℕ, ◌+◌, ◌≡◌, ◌∙◌, refl, sym, ap, Bool, true, ◌∷◌, ◌++◌, arith, Text, cut, cut-append,
}
use camonitor.Clock.{Time, unix_nano}
use camonitor.Decimal.{decimal, decimal-injective, contains-decimal}
use camonitor.Bell.{BellBus, make_event_id}

cut-id : (m n : ℕ) → cut b'-' (decimal m ++ (b'-' ∷ decimal n)) ≡ (decimal m, decimal n, true)
cut-id m n = cut-append b'-' (decimal m) (decimal n) (contains-decimal b'-' m refl)

-- Two events have one id only if they have one time, to the nanosecond, and one number in the server's
-- count: the ids of one run of the server differ, and so do those of runs at different times.
pub make_event_id-injective :
    (t t' : Time) (b b' : BellBus)
    → (make_event_id t b).0 ≡ (make_event_id t' b').0
    → (unix_nano t ≡ unix_nano t') × (b.next_seq ≡ b'.next_seq)
unfolding make_event_id
make_event_id-injective t t' b b' h =
    let e : (decimal (unix_nano t), decimal (b.next_seq + 1), true)
        ≡ (decimal (unix_nano t'), decimal (b'.next_seq + 1), true) =
      sym (cut-id (unix_nano t) (b.next_seq + 1))
      ∙ ap (cut b'-') h
      ∙ cut-id (unix_nano t') (b'.next_seq + 1) in
    let seq : b.next_seq + 1 ≡ b'.next_seq + 1 =
      decimal-injective (b.next_seq + 1) (b'.next_seq + 1)
        (ap (λ (x : Text × Text × Bool). x.1) e) in
    (
      decimal-injective (unix_nano t) (unix_nano t') (ap (λ (x : Text × Text × Bool). x.0) e),
      omega (arith, seq),
    )
