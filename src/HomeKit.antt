-- ===== src/HomeKit.antt =====
-- The HomeKit accessories of the house.
pub mod Climate
pub mod Lock
pub mod Srtp
pub mod GarageDoor
