-- ===== src/Mobile.antt =====
-- The mobile client: its calls, its session, the address of the server, and its stores.
pub mod Account
pub mod Address
pub mod Calls
pub mod Monitoring
pub mod Phone
pub mod Session
