-- ===== src/Genesis.antt =====
-- genesis.go, types/v2/genesis.go and the genesis states of the parts: the start of a chain from a
-- genesis state, and the export of one.
pub mod Record
pub mod Init
pub mod Export
pub mod Collect
pub mod Reading
pub mod Listed
pub mod Keys
pub mod PortalPart
pub mod VaultsPart
pub mod DollarPart
pub mod DollarRun
pub mod RoundTrip
