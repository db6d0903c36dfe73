-- ===== src/Launcher.antt =====
-- The out-of-process launcher, src/launcher/pmsj_launcher_main.cpp.
pub mod Settings
pub mod Write
pub mod Load
pub mod Commit
pub mod Inspect
