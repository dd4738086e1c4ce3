-- ===== src/Models.antt =====
-- Which model answers a request, with which key and at which address: frontend/packages/core/src.
pub mod Catalog
pub mod Resolve
pub mod Providers
pub mod Project
