-- ===== src/Api/Routed.antt =====
-- Each call of client/src/lib/api.ts meets a route of server/cmd/server/main.go.
pub mod Account
pub mod Project
pub mod Notify
pub mod Deploy
pub mod Host
pub mod User
pub mod Server
pub mod Alert
pub mod Monitoring
pub mod Transfer
pub mod Backup
