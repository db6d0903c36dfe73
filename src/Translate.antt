-- ===== src/Translate.antt =====
-- The runtime English-translation layer of src/main/diagnostics.cpp.
pub mod Fnv
pub mod Json
pub mod Load
pub mod Context
pub mod Glyph
pub mod Render
pub mod Discovery
pub mod Hook
pub mod Draw
