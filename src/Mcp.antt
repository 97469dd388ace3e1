-- ===== src/Mcp.antt =====
-- src/lib/mcp: the server that offers connected accounts to a model as tools.
pub mod Json
pub mod Protocol
pub mod Connections
pub mod Tools
pub mod Server
mod Tests
