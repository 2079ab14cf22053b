-- ===== src/Guest/Store.antt =====
-- gueststore.go: the guest records, in memory and in the JSON file.
--
-- A method takes the store and what the environment answers (the clock, the random bytes, the
-- outcome of the write), and returns the result beside the store. The file is
-- modelled as the records that it encodes.
pub mod Calls
pub mod Keeps
pub mod Find
pub mod Access
pub mod Codes
pub mod Invite
pub mod Durability
pub mod Records
use camonitor.Prelude.{
  ℕ, zero, ◌+◌, ◌-◌, ◌*◌, ◌≡◌, Bool, true, false, not, ◌&&◌, List, [], ◌∷◌, ◌++◌, map, Option, none,
  some, ltb, if◌then◌else◌, length, take, Text, codes, text_eq, is_empty,
}
use camonitor.Clock.{minute}
pub use camonitor.Clock.{Time}
use camonitor.Encoding.{hex, base32, base64_raw_url}

abbrev pub enroll_code_ttl : ℕ
enroll_code_ttl = 10 * minute

-- `crypto/sha256`, whose sums always have 32 bytes.
pub record Sha256 : Type 0 where
  pub sum : Text → Text
  pub length-sum : (s : Text) → length (sum s) ≡ 32

pub record Guest : Type 0 where
  pub id : Text
  pub label : Text
  pub created : Time
  pub last_seen : Time
  pub enrolled : Bool
  pub revoked : Bool
  pub demo : Bool

pub record GuestRecord : Type 0 where
  pub guest : Guest
  pub open guest use *
  pub token_hash : Text
  pub code_hash : Text
  pub code_expiry : Time

pub record GuestStore : Type 0 where
  pub guests : List GuestRecord
  pub file : Option (List GuestRecord)

pub data Error : Type 0 where
  guest_not_found enroll_invalid enroll_expired rand_failed save_failed : Error

pub data Result {ℓ} (A : Type ℓ) : Type ℓ where
  ok : A → Result A
  err : Error → Result A

-- How `save` went: the marshalling, the write of the temporary file or its renaming may fail, and
-- the file at the store's path changes with the renaming alone.
pub data SaveOutcome : Type 0 where
  saved marshal_failed write_failed rename_failed : SaveOutcome

unfoldable pub save : SaveOutcome → GuestStore → Option Error × GuestStore
save saved s = (none, record s { file = some s.guests })
save marshal_failed s = (some save_failed, s)
save write_failed s = (some save_failed, s)
save rename_failed s = (some save_failed, s)

-- `OpenGuestStore` on a file that can be read and parsed, or that is not there.
unfoldable pub open_guest_store : Option (List GuestRecord) → GuestStore
open_guest_store none = record { guests = []; file = none }
open_guest_store (some gs) = record { guests = gs; file = some gs }

unfoldable pub find : (GuestRecord → Bool) → List GuestRecord → Option GuestRecord
find match [] = none
find match (r ∷ rs) = if match r then some r else find match rs

-- A write through the pointer that `find` returns.
unfoldable pub update_first :
    (GuestRecord → Bool) → (GuestRecord → GuestRecord) → List GuestRecord → List GuestRecord
update_first match f [] = []
update_first match f (r ∷ rs) = if match r then f r ∷ rs else r ∷ update_first match f rs

abbrev pub has_id : Text → GuestRecord → Bool
has_id id r = text_eq r.id id

abbrev pub mark_revoked : GuestRecord → GuestRecord
mark_revoked r = record r { guest = record (r.guest) { revoked = true } }

abbrev pub mark_seen : Time → GuestRecord → GuestRecord
mark_seen now r = record r { guest = record (r.guest) { last_seen = now } }

-- The error of a write, or none: what `return s.save()` returns.
abbrev pub save_result {ℓ} : {A : Type ℓ} → A → Option Error × GuestStore → Result A × GuestStore
save_result a (none, s) = (ok a, s)
save_result a (some e, s) = (err e, s)

unfoldable pub list : GuestStore → List Guest
list s = map (λ r. r.guest) s.guests

unfoldable pub revoke : Text → SaveOutcome → GuestStore → Option Error × GuestStore
unfolding find update_first save
revoke id out s = elim (find (has_id id) s.guests) [
  | none ↦ (some guest_not_found, s)
  | some _ ↦ save out (record s { guests = update_first (has_id id) mark_revoked s.guests })
]

-- `s.guests[:len(s.guests)-1]`
abbrev pub drop_last : List GuestRecord → List GuestRecord
drop_last gs = take (length gs - 1) gs

-- The end of `Create` and `EnrollDemo`: a failed write takes the appended record back.
abbrev undo_append {ℓ} : {A : Type ℓ} → A → Option Error × GuestStore → Result A × GuestStore
undo_append a (none, s) = (ok a, s)
undo_append a (some e, s) = (err e, record s { guests = drop_last s.guests })

append_guest {ℓ} : {A : Type ℓ} → GuestRecord → A → SaveOutcome → GuestStore → Result A × GuestStore
unfolding save
append_guest rec a out s = undo_append a (save out (record s { guests = s.guests ++ rec ∷ [] }))

-- 7 random bytes to 12 characters, of which 10 are kept.
unfoldable pub enroll_code : Text → Text
enroll_code code_bytes = take 10 (base32 code_bytes)

module _ (d : Sha256) where
  unfoldable pub hash_secret : Text → Text
  hash_secret secret = hex (d.sum secret)

  unfoldable pub hash_equal : Text → Text → Bool
  hash_equal stored_hash secret = text_eq stored_hash (hash_secret secret)

  -- What `Create` appends; `now` is the store's clock.
  unfoldable pub created_record : Text → Text → Text → Time → GuestRecord
  unfolding hash_secret
  created_record id label code now = record {
    guest = record {
      id = id;
      label = label;
      created = now;
      last_seen = 0;
      enrolled = false;
      revoked = false;
      demo = false;
    };
    token_hash = [];
    code_hash = hash_secret code;
    code_expiry = now + enroll_code_ttl;
  }

  -- `id` and `code_bytes` are the two results of `randomBytes`.
  unfoldable pub create :
      Text
      → Option Text
      → Option Text
      → Time
      → SaveOutcome
      → GuestStore
      → Result (Guest × Text) × GuestStore
  unfolding append_guest created_record
  create label none code_bytes now out s = (err rand_failed, s)
  create label (some id) none now out s = (err rand_failed, s)
  create label (some id) (some code_bytes) now out s =
      let code = enroll_code code_bytes in
      let rec = created_record (hex id) label code now in append_guest rec (rec.guest, code) out s

  unfoldable pub code_matches : Text → GuestRecord → Bool
  unfolding hash_equal
  code_matches code r = not (is_empty r.code_hash) && hash_equal r.code_hash code

  unfoldable pub token_matches : Text → GuestRecord → Bool
  unfolding hash_equal
  token_matches token r = not (is_empty r.token_hash) && hash_equal r.token_hash token

  -- The writes of `Enroll` to the record it found.
  unfoldable pub with_token : Text → Time → GuestRecord → GuestRecord
  unfolding hash_secret
  with_token token now r = record {
    guest = record (r.guest) { enrolled = true; last_seen = now };
    token_hash = hash_secret token;
    code_hash = [];
    code_expiry = 0;
  }

  -- Past the checks: the code is consumed, whether or not the write succeeds.
  unfoldable pub enroll_record :
      Text
      → Option Text
      → Time
      → SaveOutcome
      → GuestRecord
      → GuestStore
      → Result (Text × Guest) × GuestStore
  unfolding update_first save
  enroll_record code none later out r s = (err rand_failed, s)
  enroll_record code (some token_bytes) later out r s =
      let token = base64_raw_url token_bytes in
      save_result (token, (with_token token later r).guest)
        (save out (record s {
          guests = update_first (code_matches code) (with_token token later) s.guests;
        }))

  -- `now` and `later` are the two readings of the clock, the second after the expiry check.
  unfoldable pub enroll :
      Text
      → Option Text
      → Time
      → Time
      → SaveOutcome
      → GuestStore
      → Result (Text × Guest) × GuestStore
  unfolding find enroll_record
  enroll code token_bytes now later out s = elim (find (code_matches code) s.guests) [
    | none ↦ (err enroll_invalid, s)
    | some r ↦
        if r.revoked
        then (err enroll_invalid, s)
        else if ltb r.code_expiry now
        then (err enroll_expired, s)
        else enroll_record code token_bytes later out r s
  ]

  unfoldable pub demo_record : Text → Text → Text → Time → GuestRecord
  unfolding hash_secret
  demo_record id label token now = record {
    guest = record {
      id = id;
      label = label;
      created = now;
      last_seen = now;
      enrolled = true;
      revoked = false;
      demo = true;
    };
    token_hash = hash_secret token;
    code_hash = [];
    code_expiry = 0;
  }

  unfoldable pub enroll_demo :
      Text
      → Option Text
      → Option Text
      → Time
      → SaveOutcome
      → GuestStore
      → Result (Text × Guest) × GuestStore
  unfolding append_guest demo_record
  enroll_demo label none token_bytes now out s = (err rand_failed, s)
  enroll_demo label (some id) none now out s = (err rand_failed, s)
  enroll_demo label (some id) (some token_bytes) now out s =
      let token = base64_raw_url token_bytes in
      let rec = demo_record (hex id) label token now in append_guest rec (token, rec.guest) out s

  -- The error of the write is dropped: a guest is not locked out by a full disk.
  unfoldable pub authenticate : Text → Time → SaveOutcome → GuestStore → Option Guest × GuestStore
  unfolding find token_matches update_first save
  authenticate token now out s = elim (find (token_matches token) s.guests) [
    | none ↦ (none, s)
    | some r ↦ if r.revoked then (none, s) else (
      some (mark_seen now r).guest,
      (save out
          (record s { guests = update_first (token_matches token) (mark_seen now) s.guests })).1,
    )
  ]
