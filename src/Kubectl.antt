-- ===== src/Kubectl.antt =====
-- Contexts and calls of kubectl (internal/kubectl).
pub mod Keys
pub mod Contexts
pub mod Tests
