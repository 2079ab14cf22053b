-- ===== src/Guest/Store/Records.antt =====
-- What every guest record satisfies, whatever was called.
use camonitor.Prelude.{◌≡◌, true, false, refl, List, [], ◌∷◌, none, some, arith, length, All, Text}
use camonitor.Encoding.{length-hex}
use camonitor.Guest.Store.{
  Sha256, GuestRecord, created_record, demo_record, with_token, hash_secret, open_guest_store,
}
use camonitor.Guest.Store.Calls.{Call, creates, enrolls_demo, run}
use camonitor.Guest.Store.Keeps.{Holds, IsStable, Admits, run-Holds}

-- A hash has 64 hexadecimal digits.
pub record IsWellFormed (r : GuestRecord) : Type 0 where
  pub pending :
      r.enrolled ≡ false → (r.token_hash ≡ []) × (length r.code_hash ≡ 64) × (r.demo ≡ false)
  pub active : r.enrolled ≡ true → (length r.token_hash ≡ 64) × (r.code_hash ≡ [])

module _ (d : Sha256) where
  length-hash_secret : (secret : Text) → length (hash_secret d secret) ≡ 64
  unfolding hash_secret
  length-hash_secret secret = omega (arith, length-hex (d.sum secret), d.length-sum secret)

  IsWellFormed-stable : IsStable d IsWellFormed
  unfolding with_token
  IsWellFormed-stable = record {
    revoked = λ r h. record { pending = h.pending; active = h.active };
    seen = λ now r h. record { pending = h.pending; active = h.active };
    token = λ token now r h. record {
      pending = λ e. absurd (cc);
      active = λ e. (length-hash_secret token, refl);
    };
  }

  IsWellFormed-Admits : (c : Call) → Admits d IsWellFormed c
  unfolding created_record demo_record
  IsWellFormed-Admits (creates label (some id) (some code_bytes) now out) = record {
    pending = λ e. (refl, length-hash_secret _, refl);
    active = λ e. absurd (cc);
  }
  IsWellFormed-Admits (creates label (some id) none now out) = tt
  IsWellFormed-Admits (creates label none code_bytes now out) = tt
  IsWellFormed-Admits (enrolls_demo label (some id) (some token_bytes) now out) = record {
    pending = λ e. absurd (cc);
    active = λ e. (length-hash_secret _, refl);
  }
  IsWellFormed-Admits (enrolls_demo label (some id) none now out) = tt
  IsWellFormed-Admits (enrolls_demo label none token_bytes now out) = tt
  IsWellFormed-Admits _ = tt

  All-Admits : (cs : List Call) → All (Admits d IsWellFormed) cs
  All-Admits [] = tt
  All-Admits (c ∷ cs) = (IsWellFormed-Admits c, All-Admits cs)

  -- After any history from an empty store, every record, in memory and in the file, is either
  -- waiting to be enrolled, with a code and no token and no demo rights, or enrolled, with a token
  -- and no code left.
  pub run-IsWellFormed : (cs : List Call) → Holds IsWellFormed (run d (open_guest_store none) cs)
  unfolding open_guest_store
  run-IsWellFormed cs =
      run-Holds d IsWellFormed IsWellFormed-stable _ cs (All-Admits cs)
        (record { memory = tt; disk = tt })
