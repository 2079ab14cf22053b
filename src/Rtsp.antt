-- ===== src/Rtsp.antt =====
-- rtsp.go: the client that reads a camera's stream.
--
-- What the socket has yet to deliver is a list of bytes; where it ends, a read fails.
pub mod Response
pub mod Frames
pub mod Sdp
pub mod Control
pub mod Handshake
pub mod Backoff
mod Examples
