-- ===== src/Toolsetfile.antt =====
-- toolsetfile/: the files that declare a toolset, lock its packages and replace them by directories.
pub mod File
pub mod Lock
pub mod Resolve
pub mod Consistent
pub mod Cached
pub mod Load
