-- ===== src/State.antt =====
-- Access to the store: keeper/state.go, keeper/state_portal.go and keeper/state_vaults.go.
pub mod Names
pub mod Dollar
pub mod Portal
pub mod Provider
pub mod Listing
pub mod Vaults
