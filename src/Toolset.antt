-- ===== src/Toolset.antt =====
-- toolset/: the tools of the loaded packages, and the bindings of their parameters.
pub mod Binding
pub mod Call
pub mod Bound
pub mod Injected
pub mod Honoured
pub mod View
