-- ===== src/Tests.antt =====
-- Runs of the definitions on concrete inputs, and the theorems applied to them.
mod Configs
mod Entries
mod Login
mod Messages
mod Names
mod Options
mod Saving
mod Windows
mod Sending
mod Files
mod Polls
mod Reloading
mod Addresses
mod Tables
mod Lists
mod Syncing
mod System
mod Asking
mod Hooks
