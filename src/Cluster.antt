-- ===== src/Cluster.antt =====
-- internal/clusterstate: the coordination state that gateways, workers and refreshers share.
pub mod Memory
pub mod Shards
pub mod Refresh
pub mod Tests
