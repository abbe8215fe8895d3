-- ===== src/Ntt.antt =====
-- types/portal/ntt: the messages of native token transfers. A Go slice is the list of its bytes,
-- and its capacity is its length.
pub mod Slice
pub mod Manager
pub mod Transceiver
pub mod Transfer
pub mod RoundTrip
