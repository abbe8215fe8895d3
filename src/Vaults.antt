-- ===== src/Vaults.antt =====
-- The vaults: keeper/msg_server_vaults.go, and keeper/abci.go, which ends their first season.
pub mod Backing
pub mod Withdrawing
pub mod Account
pub mod Admin
pub mod Lock
pub mod Digits
pub mod Names
pub mod Walk
pub mod Rewards
pub mod Unlock
pub mod Season
pub mod Removal
pub mod Guards
pub mod Recording
pub mod Sharing
pub mod Ending
pub mod Totals
