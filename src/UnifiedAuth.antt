-- ===== src/UnifiedAuth.antt =====
-- src/lib/api-auth.ts: the wrapper of the unified routes. A request runs through its numbered parts
-- in order; each part continues, answers, or throws.
pub mod Defs
pub mod Steps
pub mod KeyCheck
pub mod Connection
pub mod Dispatch
pub mod Keeps
pub mod Ownership
pub mod Admission
pub mod Outcomes
pub mod Passing
pub mod Replay
pub mod Logging
mod Tests
