-- ===== src/Model.antt =====
-- internal/model: the data that the sidecar and the daemon share.
pub mod Capability
pub mod RouteTable
pub mod Locking
