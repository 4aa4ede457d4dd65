-- ===== src/ClusterConfig.antt =====
-- The cluster configuration and its validation (internal/clusterconfig).
pub mod Types
pub mod Resolved
pub mod Netip
pub mod Platform
pub mod Network
pub mod Names
pub mod Settings
pub mod Infrastructure
pub mod Networking
pub mod Validate
pub mod Tests
