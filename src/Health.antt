-- ===== src/Health.antt =====
-- Health checks (internal/health).
pub mod Checks
pub mod Objects
pub mod Workloads
pub mod HelmReleases
pub mod Tests
