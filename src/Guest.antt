-- ===== src/Guest.antt =====
-- Guest access: who may open the gate and the outer door, from the app on their phone.
pub mod Store
pub mod Source
pub mod Api
pub mod Admin
pub mod Examples
