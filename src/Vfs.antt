-- ===== src/Vfs.antt =====
-- vfs/: the in-memory file system, its file handles, and the server that dispatches requests to it.
pub mod Path
pub mod Clean
pub mod Error
pub mod MemFs
pub mod Handle
pub mod Server
pub mod Frame
pub mod Wire
pub mod Tree
pub mod Preserve
pub mod Steps
pub mod Runs
pub mod Atomic
pub mod Codes
pub mod Contents
pub mod Faults
