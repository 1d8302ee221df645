-- ===== src/Endpoints.antt =====
-- packages/shared/src/endpoints.ts: the paths that both clients request, by area.
pub mod Parts
pub mod Host
pub mod Projects
pub mod Notify
pub mod Servers
pub mod Transfers
pub mod DbBackups
