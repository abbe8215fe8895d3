-- ===== src/Index.antt =====
-- keeper/msg_server.go: `UpdateIndex` and the distribution of the yield that it brings. The
-- handling of the vaults and of the other chains stands in the children.
pub mod Vaults
pub mod External
pub mod Update
pub mod Refusal
pub mod Retrying
pub mod Keeping
pub mod Raising
pub mod Distributing
pub mod Monotone
pub mod Rounds
pub mod Accruing
pub mod Minting
pub mod Solvency
