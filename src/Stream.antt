-- ===== src/Stream.antt =====
-- The cameras' live streams for guests: signed tokens, the sessions and playlists, and the hub that
-- pulls a camera only while someone watches.
pub mod Sign
pub mod Hub
pub mod Playlist
pub mod Api
