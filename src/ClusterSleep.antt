-- ===== src/ClusterSleep.antt =====
-- Putting a cluster to sleep (internal/clustersleep).
pub mod Request
pub mod Safety
pub mod Tests
