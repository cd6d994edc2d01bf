-- ===== src/GrpcApi.antt =====
-- grpcapi/: the services, which check requests, call an ingester or an engine, and answer with a status.
pub mod Status
pub mod Tenant
pub mod Ingest
pub mod Query
