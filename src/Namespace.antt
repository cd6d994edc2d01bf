-- ===== src/Namespace.antt =====
-- namespace/: names, the keys of a namespace's objects.
pub mod Paths
pub mod Names
pub mod Catalog
pub mod Branches
pub mod Tenants
pub mod Registry
