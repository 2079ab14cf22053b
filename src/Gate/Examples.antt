-- ===== src/Gate/Examples.antt =====
-- Tests of the gate's packets, and their theorems at concrete inputs.

use camonitor.Prelude.{◌≡◌, refl, [], ◌∷◌, ◌++◌, some, arith, All, Text, codes, filter_by}
use camonitor.Encoding.{hex}
use camonitor.Gate.{
  centsys_key, centsys_xor, phone_parts, build_cmd01, build_cmd05, build_cmd03_prefix, decode_cmd04,
  decode_overview,
}
use camonitor.Gate.Packets.{IsByte, centsys_xor_twice}

gate_runs : Unit {0}
unfolding filter_by centsys_key centsys_xor phone_parts build_cmd01 build_cmd05 build_cmd03_prefix
    decode_cmd04 decode_overview
gate_runs = tt

abbrev mac : Text
mac = 0x10 ∷ 0x20 ∷ 0x30 ∷ 0x40 ∷ []

packs_phone : phone_parts (codes "+27821234567") ≡ (0, 0x87200000, 0x76543212)
unfolding gate_runs
packs_phone = refl

-- The vectors of centsys_packets_test.go.
abbrev test_mac : Text
test_mac = 0xac ∷ 0xeb ∷ 0xe6 ∷ 0x25 ∷ []

vectors :
    (hex (centsys_key test_mac) ≡ codes "9473d99f4dbfab9c")
    × (hex (build_cmd01 (codes "+27831234567") test_mac) ≡ codes "010101009473d99f4dbf8b1b87418de9")
    × (hex (
          build_cmd05 test_mac (record {
            second = 45;
            minute = 30;
            hour = 14;
            weekday = 3;
            day = 21;
            month = 10;
            year = 2026;
          }))
        ≡ codes "01010500b96dd79d58b6b19c")
    × (hex (build_cmd03_prefix test_mac 0) ≡ codes "010103009473fb9f")
    × (decode_cmd04 test_mac (1 ∷ 1 ∷ 4 ∷ 0 ∷ 0x94 ∷ 0x72 ∷ []) ≡ some (1, 0))
unfolding gate_runs hex
vectors = (refl, refl, refl, refl, refl)

centsys_xor_twice_example :
    centsys_xor (centsys_xor (1 ∷ 255 ∷ []) (7 ∷ [])) (7 ∷ []) ≡ 1 ∷ 255 ∷ []
centsys_xor_twice_example =
    centsys_xor_twice (1 ∷ 255 ∷ []) (7 ∷ []) (omega arith, (omega arith, tt)) (omega arith, tt)

mac_bytes : All IsByte mac
mac_bytes = (omega arith, (omega arith, (omega arith, (omega arith, tt))))

abbrev zeros : Text
zeros = 0 ∷ 0 ∷ 0 ∷ 0 ∷ 0 ∷ 0 ∷ 0 ∷ 0 ∷ []

-- A garage report with the status byte 9.
abbrev report : Text
report = zeros ++ (zeros ++ (9 ∷ 0 ∷ 0 ∷ 0 ∷ zeros))
