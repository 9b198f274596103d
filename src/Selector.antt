-- ===== src/Selector.antt =====
-- internal/selector: sticky sessions and the choice of an account.
pub mod Sticky
pub mod Acct
pub mod StickyInv
pub mod StickyOps
pub mod StickyLaws
pub mod StickyRun
pub mod StickyCalls
pub mod Config
pub mod Pick
pub mod Order
pub mod RoundRobin
pub mod Reorder
pub mod Alike
pub mod Rotation
pub mod Picks
pub mod Affinity
pub mod Tests
