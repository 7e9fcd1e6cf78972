-- ===== src/Manifest.antt =====
-- internal/manifest: the declarative service description and its safety rules.
pub mod Defs
pub mod Paths
pub mod Validate
pub mod Rendered
pub mod Safety
pub mod Confinement
pub mod Valid
pub mod Continued
