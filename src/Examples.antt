-- ===== src/Examples.antt =====
-- The theorems at concrete inputs, and tests of the definitions.
mod Store
mod Records
mod Logs
mod Catalogs
mod Ingests
mod Tables
mod Services
mod Loads
mod Engines
mod Registries
