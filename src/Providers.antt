-- ===== src/Providers.antt =====
-- src/lib/providers/core: the engine that every provider shares.
pub mod Errors
pub mod Http
pub mod Base
pub mod Manifests
pub mod Throttle
pub mod Operations
