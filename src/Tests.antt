-- ===== src/Tests.antt =====
-- Runs on concrete inputs, and the theorems applied to them.
mod Logs
mod Fibers
mod Rounds
mod Configs
mod Documents
mod Locks
mod Lifetimes
mod Utils
mod Locking
