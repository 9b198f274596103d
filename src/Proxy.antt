-- ===== src/Proxy.antt =====
-- internal/proxypool: the pool of egress nodes.
pub mod Pool
pub mod Health
pub mod Replaced
pub mod Tests
