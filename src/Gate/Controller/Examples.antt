-- ===== src/Gate/Controller/Examples.antt =====
-- Tests of the exchange that opens the gate, and its theorems at a concrete operator.
use camonitor.Prelude.{◌≡◌, refl, arith, true, [], ◌∷◌, none, some, Text, codes}
use camonitor.Gate.{Civil, gate_closed, decode_cmd04}
use camonitor.Gate.Controller.{
  CentsysCreds, CentsysController, opened, no_challenge, rejected, Broker, new_centsys_controller,
  reload, activate, challenged, first_reply, woken, connected, centsys_open,
}
use camonitor.Gate.Controller.Opened.{Opens, conversation, centsys_open-Opens}
use camonitor.Gate.Controller.Rounds.{Agreed, accepted, told}
use camonitor.Gate.Controller.Completes.{centsys_open-completes}

exchange_runs : Unit {0}
unfolding new_centsys_controller reload activate challenged first_reply woken connected centsys_open
    decode_cmd04
exchange_runs = tt

abbrev mac : Text
mac = 0xac ∷ 0xeb ∷ 0xe6 ∷ 0x25 ∷ []

abbrev creds : CentsysCreds
creds = record { phone = codes "+27831234567"; serial = codes "GX1"; mac4 = mac }

abbrev gate : CentsysController
gate = record { creds = some creds; status = gate_closed }

abbrev now : Civil
now = record { second = 45; minute = 30; hour = 14; weekday = 3; day = 21; month = 10; year = 2026 }

-- The reply with code 1 of centsys_packets_test.go.
abbrev yes : Text
yes = 1 ∷ 1 ∷ 4 ∷ 0 ∷ 0x94 ∷ 0x72 ∷ []

-- The same with code 7 and version 1.
abbrev other : Text
other = 1 ∷ 1 ∷ 4 ∷ 0 ∷ 0x95 ∷ 0x74 ∷ []

abbrev operator : Broker
operator = record {
  connects = true;
  publishes = λ k. true;
  wakes = true;
  triggers = (9 ∷ 1 ∷ 2 ∷ 3 ∷ 4 ∷ []) ∷ [] ∷ other ∷ yes ∷ [];
}

other-decode : decode_cmd04 mac other ≡ some (7, 1)
unfolding exchange_runs
other-decode = refl

yes-decode : decode_cmd04 mac yes ≡ some (1, 0)
unfolding exchange_runs
yes-decode = refl

opens : (centsys_open operator now gate).0 ≡ opened
unfolding exchange_runs
opens = refl

refuses :
    ((centsys_open (record operator { triggers = (9 ∷ 1 ∷ []) ∷ [] }) now gate).0 ≡ no_challenge)
    × ((centsys_open
          (record operator {
            triggers = (9 ∷ 1 ∷ 2 ∷ 3 ∷ 4 ∷ []) ∷ [] ∷ (1 ∷ 1 ∷ 4 ∷ 0 ∷ 0x94 ∷ 0x71 ∷ []) ∷ [];
          })
          now
          (reload (some creds) (new_centsys_controller none))).0
        ≡ rejected 2)
unfolding exchange_runs
refuses = (refl, refl)

centsys_open-Opens_example : Opens operator now gate (centsys_open operator now gate).1
centsys_open-Opens_example = centsys_open-Opens operator now gate opens

agreed : Agreed mac 0 (other ∷ yes ∷ []) (0 ∷ 1 ∷ [])
agreed =
    told 0 1 other (yes ∷ []) (1 ∷ []) other-decode (λ e. absurd (omega arith))
      (accepted 1 0 yes [] yes-decode)

keeps_to_it : Opens operator now gate (conversation creds now (1 ∷ 2 ∷ 3 ∷ 4 ∷ []) (0 ∷ 1 ∷ []))
keeps_to_it = (
  creds,
  9 ∷ 1 ∷ 2 ∷ 3 ∷ 4 ∷ [],
  [] ∷ other ∷ yes ∷ [],
  0 ∷ 1 ∷ [],
  refl,
  refl,
  refl,
  refl,
  omega arith,
  agreed,
  omega arith,
  refl,
)

centsys_open-completes_example :
    centsys_open operator now gate
    ≡ (opened, conversation creds now (1 ∷ 2 ∷ 3 ∷ 4 ∷ []) (0 ∷ 1 ∷ []))
centsys_open-completes_example =
    centsys_open-completes operator now gate
      (conversation creds now (1 ∷ 2 ∷ 3 ∷ 4 ∷ []) (0 ∷ 1 ∷ [])) (λ k. refl) keeps_to_it
