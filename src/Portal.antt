-- ===== src/Portal.antt =====
-- The portal: keeper/msg_server_portal.go, and `Deliver` and `HandlePayload` of keeper/keeper.go.
pub mod Constants
pub mod Admin
pub mod Deliver
pub mod Transfer
pub mod Owner
pub mod Checks
pub mod EndToEnd
pub mod Burning
