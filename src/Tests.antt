-- ===== src/Tests.antt =====
-- The theorems at concrete inputs, by the part of the repository that they are about.
pub mod Data
pub mod Common
pub mod Unix
pub mod Spawn
pub mod Windows
pub mod WindowsSession
pub mod SpawnProcess
pub mod Threads
