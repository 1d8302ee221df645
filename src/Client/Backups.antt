-- ===== src/Client/Backups.antt =====
-- client/src/features/dbbackups: the pages of the database backups, by their forms and by the controls of
-- each tab.
pub mod Forms
pub mod Role
pub mod Told
pub mod Settled
pub mod Jobs
pub mod Agents
pub mod Connections
pub mod Policies
pub mod Storage
pub mod Runs
pub mod Restores
pub mod Controls
