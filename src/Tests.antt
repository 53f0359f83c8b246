-- ===== src/Tests.antt =====
-- Runs of the code's definitions and instances of the theorems.
mod ToolNames
mod FileSystem
mod Requests
mod Versions
mod Packages
mod HeaderLists
mod Checkouts
mod TarToy
mod Bundles
mod Toolsets
mod ToolsetFiles
mod Vault
