-- ===== src/FakeVault.antt =====
-- The local secret store (internal/fakevault).
pub mod Paths
pub mod Types
pub mod Store
pub mod Operations
pub mod Files
pub mod Unwritten
pub mod Keys
pub mod Laws
pub mod Encodable
pub mod Secrets
pub mod Stored
pub mod RoundTrip
pub mod Versions
pub mod Failures
pub mod Success
pub mod Handler
mod Tests
