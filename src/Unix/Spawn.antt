-- ===== src/Unix/Spawn.antt =====
-- Starting the program: src/unix/pty_unix_spawn.c.
pub mod System
pub mod Strings
pub mod Options
pub mod Path
pub mod Descriptors
pub mod Transfer
pub mod Process
