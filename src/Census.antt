-- ===== src/Census.antt =====
-- The always-on text census of src/main/diagnostics.cpp.
pub mod TextPc
pub mod Slots
pub mod Inventory
pub mod Ranking
pub mod Probe
pub mod MemScan
