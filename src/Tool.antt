-- ===== src/Tool.antt =====
-- tool/fqn.go: module paths, versions, tool paths and the fully qualified names built of them.
pub mod Pattern
pub mod Fqn
pub mod Pieces
pub mod RoundTrip
pub mod Pseudo
