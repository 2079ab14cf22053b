-- ===== src/Guest/Examples.antt =====
-- Tests of the guest store, and its theorems at concrete inputs.
use camonitor.Prelude.{
  ℕ, zero, suc, ◌≡◌, ◌≢◌, refl, ap, true, false, List, [], ◌∷◌, none, some, arith, length, Text,
  codes, text_eq, ne_of_text_eq,
}
use mathlib.Core.List.{Memᴰ}
use camonitor.Encoding.{hex, base32, base64_raw_url}
use camonitor.Guest.Store.{
  Time, Sha256, Guest, GuestRecord, GuestStore, ok, err, enroll_invalid, saved, rename_failed, save,
  find, mark_seen, create, revoke, enroll, enroll_demo, authenticate, enroll_code, open_guest_store,
  code_matches, token_matches, created_record, with_token, hash_secret, update_first,
}
use camonitor.Guest.Store.Calls.{
  Call, creates, revokes, enrolls, authenticates, restarts, step, run, reports_saved,
}
use camonitor.Guest.Store.Keeps.{Holds}
use camonitor.Guest.Store.Access.{authenticate_sound, revoke_lasts}
use camonitor.Guest.Store.Codes.{enroll_spent_code}
use camonitor.Guest.Store.Invite.{invited_guest_enters}
use camonitor.Guest.Store.Records.{IsWellFormed, run-IsWellFormed}
use camonitor.Guest.Store.Durability.{saved_survives_restart}

-- The first `n` bytes, filled up with zeros: it stands in for SHA-256.
abbrev pub pad : ℕ → Text → Text
pad zero s = []
pad (suc n) [] = 0 ∷ pad n []
pad (suc n) (c ∷ s) = c ∷ pad n s

pub length-pad : (n : ℕ) (s : Text) → length (pad n s) ≡ n
length-pad zero s = refl
length-pad (suc n) [] = ap suc (length-pad n [])
length-pad (suc n) (c ∷ s) = ap suc (length-pad n s)

abbrev pub toy : Sha256
toy = record { sum = pad 32; length-sum = length-pad 32 }

hex_of_bytes : hex (0 ∷ 171 ∷ 255 ∷ []) ≡ codes "00abff"
unfolding hex
hex_of_bytes = refl

base32_of_bytes : base32 (codes "foobar!") ≡ codes "MZXW6YTBOIQQ"
unfolding base32
base32_of_bytes = refl

base64_of_bytes : base64_raw_url (251 ∷ 255 ∷ 1 ∷ 7 ∷ []) ≡ codes "-_8BBw"
unfolding base64_raw_url
base64_of_bytes = refl

abbrev ann_id : Text
ann_id = 1 ∷ 2 ∷ 3 ∷ 4 ∷ 5 ∷ 6 ∷ 7 ∷ 8 ∷ []

abbrev bob_id : Text
bob_id = 9 ∷ 9 ∷ 9 ∷ 9 ∷ 9 ∷ 9 ∷ 9 ∷ 9 ∷ []

abbrev ann_code : Text
ann_code = codes "foobar!"

abbrev ann_token : Text
ann_token = codes "a token of 32 bytes, more or less"

-- What the tests below compute with.
store_runs : Unit {0}
unfolding text_eq hex base32 base64_raw_url enroll_code open_guest_store create enroll enroll_demo
    revoke authenticate code_matches token_matches with_token save find run reports_saved
store_runs = tt

-- One guest, invited at time 5.
invited : GuestStore
unfolding store_runs
invited = (create toy (codes "Ann") (some ann_id) (some ann_code) 5 saved (open_guest_store none)).1

entered : GuestStore
unfolding store_runs invited
entered = (enroll toy (enroll_code ann_code) (some ann_token) 6 7 saved invited).1

abbrev ann : Time → Guest
ann seen = record {
  id = codes "0102030405060708";
  label = codes "Ann";
  created = 5;
  last_seen = seen;
  enrolled = true;
  revoked = false;
  demo = false;
}

ann_enters : (authenticate toy (base64_raw_url ann_token) 8 saved entered).0 ≡ some (ann 8)
unfolding store_runs entered
ann_enters = refl

authenticate_sound_example :
    (r : GuestRecord) × Memᴰ r entered.guests
    × (r.token_hash ≡ hash_secret toy (base64_raw_url ann_token))
    × (r.revoked ≡ false)
    × (ann 8 ≡ (mark_seen 8 r).guest)
    × ((authenticate toy (base64_raw_url ann_token) 8 saved entered).1.guests
        ≡ update_first (token_matches toy (base64_raw_url ann_token)) (mark_seen 8) entered.guests)
authenticate_sound_example =
    authenticate_sound toy (base64_raw_url ann_token) 8 saved entered (ann 8) ann_enters

-- Another guest comes, and the server restarts.
abbrev later_calls : List Call
later_calls =
    creates (codes "Bob") (some bob_id) (some (codes "1234567")) 20 rename_failed
    ∷ creates (codes "Bob") (some bob_id) (some (codes "7654321")) 21 saved
    ∷ restarts
    ∷ enrolls (codes "G43DKNBTGI") (some (codes "Bob's token")) 22 23 saved
    ∷ []

abbrev two_guests : GuestStore
two_guests = run toy entered later_calls

bob_enters :
    (authenticate toy
      (base64_raw_url (codes "Bob's token"))
      24
      saved
      (run toy (revoke (codes "0102030405060708") saved entered).1 later_calls)).0
    ≡ some (record {
      id = codes "0909090909090909";
      label = codes "Bob";
      created = 21;
      last_seen = 24;
      enrolled = true;
      revoked = false;
      demo = false;
    })
unfolding store_runs entered
bob_enters = refl

nine_not_one : codes "0909090909090909" ≢ codes "0102030405060708"
unfolding text_eq
nine_not_one = ne_of_text_eq (codes "0909090909090909") (codes "0102030405060708") refl

revoke_lasts_example : codes "0909090909090909" ≢ codes "0102030405060708"
unfolding store_runs entered
revoke_lasts_example =
    revoke_lasts toy (codes "0102030405060708") saved entered later_calls
      (base64_raw_url (codes "Bob's token")) 24 saved _ (omega arith) refl
      (nine_not_one, (nine_not_one, (tt, (tt, tt)))) bob_enters

enroll_spent_code_example :
    let s = run toy entered later_calls in
    enroll toy (enroll_code ann_code) (some ann_token) 30 31 saved s ≡ (err enroll_invalid, s)
unfolding store_runs invited entered
enroll_spent_code_example =
    enroll_spent_code toy (enroll_code ann_code) (some ann_token) 6 7 saved invited
      (base64_raw_url ann_token, ann 7) later_calls (some ann_token) 30 31 saved (omega arith) refl
      (ne_of_text_eq _ _ refl, (ne_of_text_eq _ _ refl, (tt, (tt, tt))))

invited_guest_enters_example :
    let made =
      create toy (codes "Ann") (some ann_id) (some ann_code) 5 saved (open_guest_store none) in
    let entered = enroll toy (enroll_code ann_code) (some ann_token) 6 7 saved made.1 in
    (made.0
      ≡ ok (
        (created_record toy
            (codes "0102030405060708")
            (codes "Ann")
            (enroll_code ann_code)
            5).guest,
        enroll_code ann_code,
      ))
    × (entered.0 ≡ ok (base64_raw_url ann_token, ann 7))
    × ((authenticate toy (base64_raw_url ann_token) 9 saved entered.1).0 ≡ some (ann 9))
unfolding store_runs created_record
invited_guest_enters_example =
    invited_guest_enters toy (codes "Ann") ann_id ann_code ann_token 5 6 7 9 saved
      (open_guest_store none) (omega arith) tt tt

run-IsWellFormed_example :
    Holds IsWellFormed (run toy (open_guest_store none) (authenticates [] 1 saved ∷ later_calls))
run-IsWellFormed_example = run-IsWellFormed toy (authenticates [] 1 saved ∷ later_calls)

saved_survives_restart_example :
    let c = revokes (codes "0102030405060708") saved in
    step toy (step toy entered c) restarts ≡ step toy entered c
unfolding store_runs entered
saved_survives_restart_example =
    saved_survives_restart toy entered (revokes (codes "0102030405060708") saved) refl
