-- ===== src/Refresh.antt =====
-- internal/refresh: renewing the tokens of an account.
pub mod Config
pub mod Policy
pub mod Others
pub mod Service
pub mod Keyed
pub mod Holds
pub mod Held
pub mod Fresh
pub mod Streak
pub mod Adapter
pub mod Adapted
pub mod Tests
