-- ===== src/Api.antt =====
-- client/src/lib/api.ts: every call of the web client as the request that it makes.
pub mod Request
pub mod Account
pub mod Project
pub mod Notify
pub mod Deploy
pub mod Host
pub mod User
pub mod Server
pub mod Alert
pub mod Monitoring
pub mod Transfer
pub mod Backup
pub mod Served
pub mod Routed
pub mod Calls
