-- ===== src/Lease.antt =====
-- internal/lease: leasing accounts, and the cold store's rows that it reads and writes.
pub mod Catalog
pub mod Config
pub mod Cooldown
pub mod Manager
pub mod Release
pub mod Backoff
pub mod Acquired
pub mod Released
pub mod Tests
