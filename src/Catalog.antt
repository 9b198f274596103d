-- ===== src/Catalog.antt =====
-- internal/catalog/catalog.go: the operations on the account rows that the lease manager does not
-- call, and what their callers may rely on.
pub mod Rows
pub mod Writes
pub mod Cas
pub mod Imports
pub mod Listing
pub mod Sorted
pub mod Cuts
pub mod Pages
pub mod Tests
pub mod Batches
pub mod Loaded
