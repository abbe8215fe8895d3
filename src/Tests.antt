-- ===== src/Tests.antt =====
-- Concrete runs, and the theorems at concrete inputs.
pub mod Sample
mod Codec
mod Keeper
mod Portal
mod Vaults
mod Locks
mod Transfers
mod Runs
mod Supply
mod Flow
mod Bridge
mod Sends
mod Accounts
mod Distribution
mod Rounds
mod Backing
mod Partial
mod Queries
mod Genesis
