-- ===== src/Examples.antt =====
-- Tests of the definitions, and each theorem at a concrete input.
mod Session
mod Setup
mod Charts
mod Backups
mod Dashboard
mod Client
mod Mobile
mod Shared
mod Project
mod Rules
mod Text
mod Api
