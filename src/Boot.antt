-- ===== src/Boot.antt =====
-- The start of the game in src/main/main.cpp.
pub mod Rom
pub mod Settings
