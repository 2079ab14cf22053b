-- ===== src/Guest/Admin/Examples.antt =====
-- Tests of the owner's surface, and its theorem at a concrete input.
use camonitor.Prelude.{
  ◌≡◌, ◌≢◌, refl, true, List, [], ◌∷◌, none, some, Text, codes, text_eq, ne_of_text_eq,
}
use camonitor.Encoding.{hex, base32}
use camonitor.Guest.Store.{
  GuestRecord, saved, write_failed, find, update_first, save, list, create, revoke, authenticate,
  hash_secret, hash_equal, enroll_code, token_matches, with_token, created_record,
}
use camonitor.Guest.Store.Calls.{Call, creates, restarts, step, run}
use camonitor.Guest.Examples.{toy}
use camonitor.Stream.Playlist.{query_escape}
use camonitor.Guest.Admin.{GuestAdmin, invite_url, create_handler, list_handler, revoke_handler}

admin_runs : Unit {0}
unfolding text_eq hex base32 find update_first save list create revoke authenticate hash_secret
    hash_equal enroll_code token_matches with_token created_record step run query_escape invite_url
    create_handler list_handler revoke_handler
admin_runs = tt

abbrev member : Text → Text → GuestRecord
member id token = with_token toy token 3 (created_record toy id (codes "Ann") (codes "CODE") 1)

abbrev admin : GuestAdmin
admin = record {
  store = record {
    guests = member (codes "1") (codes "a") ∷ member (codes "2") (codes "b") ∷ [];
    file = none;
  };
  funnel_base = codes "https://gate.example";
  audit = none;
}

invites :
    (create_handler toy
      (some (codes "Bob"))
      (some (codes "12345678"))
      (some (codes "foobar!"))
      5
      saved
      true
      admin).0
    ≡ (
      200,
      some (record {
        id = codes "3132333435363738";
        label = codes "Bob";
        enroll_code = codes "MZXW6YTBOI";
        enroll_url = codes "https://gate.example/guest/enroll";
        qr_content = codes "https://gate.example/guest/enroll?code=MZXW6YTBOI";
      }),
    )
unfolding admin_runs
invites = refl

refuses_unknown : (revoke_handler (codes "9") saved admin).0 ≡ 404
unfolding admin_runs
refuses_unknown = refl

abbrev afterwards : List Call
afterwards = creates (codes "Bob") (some (codes "12345678")) none 6 write_failed ∷ restarts ∷ []

bob_not_two : codes "3132333435363738" ≢ codes "2"
unfolding text_eq
bob_not_two = ne_of_text_eq (codes "3132333435363738") (codes "2") refl

ann_enters :
    (authenticate toy
      (codes "a")
      9
      saved
      (run toy (revoke_handler (codes "2") saved admin).1.store afterwards)).0
    ≡ some (record (member (codes "1") (codes "a")).guest { last_seen = 9 })
unfolding admin_runs
ann_enters = refl
