-- ===== src/Vaults/Backing.antt =====
-- The positions of the vaults against their total (keeper/msg_server_vaults.go): what `Lock` and
-- `Unlock` have to keep.
pub mod Shrinking
pub mod Listing
pub mod Rounds
pub mod Unlocking
pub mod Recording
pub mod Locking
pub mod Partial
