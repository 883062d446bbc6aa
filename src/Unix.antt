-- ===== src/Unix.antt =====
-- The Unix side of the native layer (src/unix/pty_unix_session.c, pty_unix_spawn.c).
pub mod World
pub mod Spawn
pub mod Start
pub mod Close
pub mod Reentry
pub mod Frames
pub mod Input
pub mod Output
pub mod Api
pub mod Workers
pub mod Bootstrap
pub mod Threads
