-- ===== src/Windows.antt =====
-- The Windows side of the native layer (src/windows): the session with its pseudo console, the copies
-- of the options and the process, and the command line and the environment block that
-- `CreateProcessW` takes.
pub mod Wide
pub mod CommandLine
pub mod Environment
pub mod World
pub mod Closing
pub mod Posting
pub mod Workers
pub mod Api
pub mod Kept
pub mod Writer
pub mod Options
pub mod Process
pub mod Bootstrap
pub mod Start
pub mod Final
pub mod Credit
pub mod Console
