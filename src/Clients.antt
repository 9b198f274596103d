-- ===== src/Clients.antt =====
-- internal/clients: the API tokens, their quota and the gate on concurrency and rate.
pub mod Token
pub mod Store
pub mod Quota
pub mod Gate
pub mod Access
pub mod Cost
pub mod Tests
