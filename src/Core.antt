-- ===== src/Core.antt =====
-- src/core and include/vicarl/types.h: the base layer.
pub mod Samples
pub mod Types
pub mod Alloc
pub mod Writer
pub mod Reader
pub mod Sha256
