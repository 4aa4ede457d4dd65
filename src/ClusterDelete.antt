-- ===== src/ClusterDelete.antt =====
-- Deleting a cluster (internal/clusterdelete).
pub mod Shards
pub mod Runs
pub mod Outputs
pub mod Waiting
pub mod Workflow
pub mod Ensures
pub mod Safety
pub mod Rounds
pub mod Termination
pub mod Tests
