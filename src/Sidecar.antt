-- ===== src/Sidecar.antt =====
-- internal/sidecar: the MCP server that an AI client talks to, and its routes to the daemons.
pub mod Dedup
pub mod Progress
pub mod Router
pub mod Forward
pub mod Browse
pub mod Server
