-- ===== src/HomeKit/Srtp/Examples.antt =====
-- A test of the forwarder, and its theorem at concrete inputs.
use camonitor.Prelude.{true, false, List, [], ◌∷◌, none, some, if◌then◌else◌, Text, is_empty}
use camonitor.HomeKit.Srtp.{RtpPacket, SrtpForwarder, Environment}

abbrev forwarder : SrtpForwarder
forwarder = record {
  ssrc = 77;
  payload_type = 99;
  mtu = 1378;
  seq = 65535;
  sent = 0;
  closed = false;
  warned_mtu = false;
}

abbrev network : Environment
network = record {
  marshal = λ p. if is_empty p.content then none else some p.content;
  encrypt = λ s. some s;
  sends = λ s. true;
}

abbrev packet : Text → RtpPacket
packet content = record {
  ssrc = 5;
  payload_type = 96;
  sequence_number = 3;
  timestamp = 90000;
  content = content;
}

abbrev packets : List (Environment × RtpPacket)
packets = (network, packet (1 ∷ [])) ∷ (network, packet []) ∷ (network, packet (2 ∷ [])) ∷ []
