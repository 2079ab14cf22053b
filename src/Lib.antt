-- ===== src/Lib.antt =====
-- A model of the home monitor's server, the Go program at the root of the repository, with theorems about
-- it.
--
-- The program serves a household. Guests open the gate and the outer door from an app on their phone and
-- watch the cameras; the door bells are announced to the browser and kept in a history; a configuration
-- file names the cameras and doors. It has these parts here:
--
--  * Guest.Store is gueststore.go: the guests, their invitation codes and tokens, in memory and in a
--    JSON file. `GuestStore` is a record of both; `create`, `enroll`, `enroll_demo`, `authenticate`,
--    `revoke` and `list` are the methods of the same names. A write of the file has an outcome, an
--    argument: saved, or failed at one of its three steps. Store.Calls puts the methods and a restart
--    into one type `Call`, and `run` goes through a history of calls. SHA-256 is a parameter.
--  * Guest.Source is guestsource.go, the source address and device of a request.
--  * Guest.Api is guestapi.go: the handlers `require_token` for the two door buttons, `forget` and
--    `enroll_handler` (`enroll` in the source), on a server that has the store, the audit log and the
--    door actions run so far. The environment's answers, with the clock's readings among them, are the
--    record `Answers`.
--  * Audit is auditstore.go: the table of events, with `log`, `list` and `prune`.
--  * Stream.Sign is streamsign.go: `sign_stream` and `verify_stream` over an HMAC, a parameter.
--  * Stream.Playlist is the part of streamapi.go that stamps a playlist's addresses; Stream.Api is the rest
--    of it, the handlers `session` and `hls` and the throttle of the session log.
--  * Stream.Hub is streamhub.go: the hub of the cameras' pulls. `Step` is what can happen to it, with the
--    timers and their late callbacks.
--  * Bell is bell.go, the bus of the door bells; Bell.Store is bellstore.go, its table.
--  * Door is door.go, the client that opens a door station's relay, and Door.Digest is digest.go; MD5 and
--    the station are parameters.
--  * Gate is centsys_packets.go, the packets and reports of the gate's operator; Gate.Controller is the part of
--    centsys.go that opens the gate, over what the broker and the operator answer, and keeps its status.
--  * HomeKit.Lock is hklock.go, with the writes of several controllers in their parts; HomeKit.GarageDoor is
--    hkgate.go, the gate's tile, and GarageDoor.Telemetry the tile with the controller that tells it.
--  * HomeKit.Srtp is hksrtp.go, which forwards a camera's packets to a HomeKit controller; marshalling,
--    encryption and the socket are its environment. Transcode is transcode.go, the camera's sound as A-law.
--  * HomeKit.Climate is hkclimate.go, the air conditioner's tile, with the writes of a controller and the
--    histories of polls and writes.
--  * Gree is gree.go, the air conditioner's client: Gree.Cipher has its packs, over AES, a parameter;
--    Gree.Session the scan, the bind and a request, over what the network yields turn by turn; Gree.Unit
--    the status and the commands; Gree.Controller the controller, whose observers the tile is one of.
--  * Rtsp is rtsp.go, the client of a camera's stream: Rtsp.Response reads a response, Rtsp.Frames the frames
--    between responses, Rtsp.Sdp the session description; Rtsp.Control sends requests, with the digests of
--    Door.Digest, and Rtsp.Handshake is the handshake; Rtsp.Backoff is the pause before a new connection.
--  * Guest.Admin is guestadmin.go, the owner's surface.
--  * Config is the configuration's checks in main.go.
--  * Clock, Encoding and Decimal are what the parts use of Go's standard library: times, the encodings
--    of bytes as text, and decimal numbers. Prelude holds what all modules share.
--
-- The API authenticates every request with the guest store and writes to the audit log; the camera surface
-- does the same, signs an address and asks the hub to pull the camera. Each component's mutex makes its
-- methods atomic, so a method is a function from state to state, and interleavings are sequences of calls.
--
-- Numbers are natural numbers: times are nanoseconds since the year 1 and lie after the Unix epoch, and a
-- difference of times ends at the longest duration. Parsed integers keep the bounds of 64 bits. The
-- recursion of a printed decimal runs on fuel, one more than the number; the value of what it prints is
-- the number again, so the fuel is enough. The loops that read frames run on fuel, one more than the bytes
-- that the socket delivers; they end by an error of the socket or of a sink, so the fuel is enough.
-- Everything else is structural recursion. Temperatures and percentages, floats in the program, are
-- counted in ninetieths. Strings are lists of bytes; spaces and letters are the ASCII ones.
--
-- Not modelled: the JSON and HTTP layers beyond what a handler reads and answers, the texts of error
-- responses, the databases behind the tables, and the parts of the program that are glue to other
-- libraries or not reached yet: the gate's TLS and MQTT, its listener's reconnection and its login
-- (centsys.go), the rest of HomeKit (homekit.go, hkbridge.go, hkcamera.go), SIP and WebRTC (sip.go,
-- hub.go), the dialling and the deadlines of RTSP, the event listener and the snapshots (eventattach.go,
-- snapshot.go), WhatsApp (whatsapp.go) and the wiring (main.go, guestwiring.go). The mobile apps and the
-- web page are clients.
pub mod Prelude
pub mod Clock
pub mod Encoding
pub mod Decimal
pub mod Config
pub mod Audit
pub mod Guest
pub mod Bell
pub mod Stream
pub mod HomeKit
pub mod Gate
pub mod Gree
pub mod Door
pub mod Rtsp
pub mod Transcode
