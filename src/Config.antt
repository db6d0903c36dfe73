-- ===== src/Config.antt =====
-- The configuration that the launcher commits to launcher.cfg and the game reads back.
pub mod Dict
pub mod Lines
pub mod GameCfg
pub mod PakCfg
