-- ===== src/Packaging.antt =====
-- packaging/: the names and manifests of packages, their files, and the archives that hold them.
pub mod Paths
pub mod Types
pub mod Names
pub mod Camel
pub mod Manifest
pub mod Ancestors
pub mod FileSystem
pub mod Source
pub mod Loading
pub mod Shown
pub mod Declared
pub mod Archive
pub mod Tar
pub mod Pack
pub mod Unpack
pub mod Extract
pub mod Verified
pub mod Plain
pub mod Walked
pub mod PackLoad
