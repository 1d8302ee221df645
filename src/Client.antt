-- ===== src/Client.antt =====
-- The web client's own state: its sign-in, its toasts, its live events and its dashboard.
pub mod Toasts
pub mod Events
pub mod Dashboard
pub mod Auth
pub mod Transfers
pub mod Details
pub mod Rules
pub mod Logs
pub mod Progress
pub mod Wizard
pub mod Attention
pub mod Backups
pub mod Databases
pub mod Discovery
pub mod Servers
pub mod Palette
pub mod Settings
pub mod Monitoring
pub mod Telemetry
pub mod Chart
pub mod Signals
pub mod Transitions
pub mod Preferences
