-- ===== src/Tests.antt =====
-- Concrete runs, and the theorems at inputs where their hypotheses hold.
mod Disk
mod Start
mod Witnesses
mod Transfers
mod Settings
mod Parsing
mod Buckets
mod Sessions
mod Mains
mod Threads
