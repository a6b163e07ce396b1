-- ===== src/Api.antt =====
-- The Kustomization resource: api/v1/kustomization_types.go, api/v1/reference_types.go and
-- api/v1/inventory_types.go. The fields that only the manifest generator reads (`patches`,
-- `images` and the other overlay settings) are left out; they reach it with the whole object.
mod Types
pub mod Defaults
pub use Types.*
