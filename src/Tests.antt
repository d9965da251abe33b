-- ===== src/Tests.antt =====
-- The theorems of the library at concrete inputs: a small challenge on a cluster that is a clock.
mod Setting
mod Grading
mod Policies
mod Verification
mod Sessions
mod Documents
mod Stores
mod Engines
mod Shelves
mod Starts
mod Commands
mod Trials
