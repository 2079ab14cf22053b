-- ===== src/Guest/Admin.antt =====
-- guestadmin.go: the owner's surface, which invites guests, lists and revokes them, and lists the events.
--
-- The QR code of an invitation comes from a library: whether it makes one is an argument.
pub mod Owner
mod Examples
use camonitor.Prelude.{
  ℕ, Bool, true, false, List, [], ◌∷◌, ◌++◌, map, Option, none, some, if◌then◌else◌, Text, codes, ℤ,
  pos, negsuc,
}
use camonitor.Clock.{Time}
use camonitor.Decimal.{parse_int}
use camonitor.Audit.{AuditEvent, AuditFilter, AuditStore}
use camonitor.Audit
use camonitor.Guest.Store.{
  Sha256, Guest, GuestStore, Error, guest_not_found, Result, ok, err, SaveOutcome, create, revoke,
  list,
}
use camonitor.Guest.Store
use camonitor.Stream.Playlist.{query_escape}

pub record GuestAdmin : Type 0 where
  pub store : GuestStore
  pub funnel_base : Text
  pub audit : AuditStore

unfoldable pub invite_url : Text → Text → Text
invite_url enroll_url code = enroll_url ++ (codes "?code=" ++ query_escape code)

pub record Invitation : Type 0 where
  pub id : Text
  pub label : Text
  pub enroll_code : Text
  pub enroll_url : Text
  pub qr_content : Text

pub record GuestView : Type 0 where
  pub id : Text
  pub label : Text
  pub created : Time
  pub last_seen : Time
  pub enrolled : Bool
  pub revoked : Bool

abbrev pub view_of : Guest → GuestView
view_of g = record {
  id = g.id;
  label = g.label;
  created = g.created;
  last_seen = g.last_seen;
  enrolled = g.enrolled;
  revoked = g.revoked;
}

-- The errors of `strconv.Atoi` are dropped, and its result is then 0, or the bound that the number
-- exceeds; both mean the store's default, and so does what is here 0.
abbrev pub limit_of : Text → ℤ
limit_of s = elim (parse_int s) [ none ↦ pos 0 | some n ↦ n ]

unfoldable pub list_audit : Bool → Text → Text → Text → GuestAdmin → ℕ × List AuditEvent
list_audit works guest action limit a =
    elim (Audit.list works (record { guest_id = guest; action = action; limit = limit_of limit })
      a.audit) [ none ↦ (500, []) | some events ↦ (200, events) ]

abbrev pub invitation : Text → Guest → Text → Invitation
invitation funnel_base g code = record {
  id = g.id;
  label = g.label;
  enroll_code = code;
  enroll_url = funnel_base ++ codes "/guest/enroll";
  qr_content = invite_url (funnel_base ++ codes "/guest/enroll") code;
}

abbrev pub invite_reply : Bool → Text → Result (Guest × Text) → ℕ × Option Invitation
invite_reply qr_works base (err e) = (500, none)
invite_reply qr_works base (ok (g, code)) =
    if qr_works then (200, some (invitation base g code)) else (500, none)

module _ (d : Sha256) where
  -- `label` is what the body decodes to.
  unfoldable pub create_handler :
      Option Text
      → Option Text
      → Option Text
      → Time
      → SaveOutcome
      → Bool
      → GuestAdmin
      → (ℕ × Option Invitation) × GuestAdmin
  create_handler none id code_bytes now out qr_works a = ((400, none), a)
  create_handler (some label) id code_bytes now out qr_works a =
      let (result, store) = create d label id code_bytes now out a.store in
      (invite_reply qr_works a.funnel_base result, record a { store = store })

unfoldable pub list_handler : GuestAdmin → List GuestView
list_handler a = map view_of (list a.store)

abbrev pub revoke_status : Option Error → ℕ
revoke_status none = 204
revoke_status (some guest_not_found) = 404
revoke_status (some _) = 500

unfoldable pub revoke_handler : Text → SaveOutcome → GuestAdmin → ℕ × GuestAdmin
revoke_handler id out a =
    let (e, store) = revoke id out a.store in (revoke_status e, record a { store = store })
