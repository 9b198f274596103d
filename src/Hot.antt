-- ===== src/Hot.antt =====
-- internal/hot/index.go: the in-memory hot set, without secrets.
pub mod Meta
pub mod Index
pub mod Load
pub mod Sample
pub mod Dense
pub mod Valid
pub mod Replace
pub mod Pages
pub mod Preserve
pub mod Run
pub mod Inflight
pub mod Carry
pub mod Counts
pub mod Picked
pub mod Tests
pub mod Complete
