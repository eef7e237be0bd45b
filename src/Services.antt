-- ===== src/Services.antt =====
-- app/services: the audit log, the provider and identity registries, queries, the scheduler and the
-- catalog.
pub mod Audit
pub mod Table
pub mod Providers
pub mod Identities
pub mod Queries
pub mod Scheduler
pub mod Ddl
pub mod Catalog
