-- ===== src/Query.antt =====
-- The queries: keeper/query_server.go, query_server_v2.go, query_server_portal.go and
-- query_server_vaults.go. A request is a pointer, which may be nil.
pub mod Dollar
pub mod External
pub mod Portal
pub mod Rewards
pub mod Vaults
pub mod Pending
