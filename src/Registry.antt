-- ===== src/Registry.antt =====
-- registry/: the order of versions, the sources of packages, the cache, and the resolver over them.
pub mod Semver
pub mod Order
pub mod Source
pub mod Listing
pub mod GitSource
pub mod Packing
pub mod Cache
pub mod Resolver
pub mod Integrity
pub mod Fetching
pub mod Released
