-- ===== src/Launcher/Commit.antt =====
-- What the readers of launcher.cfg see of a file that the launcher has committed.
pub mod Items
pub mod Game
pub mod Pak
pub mod Keys
pub mod Values
pub mod Clean
pub mod Ports
pub mod Routes
pub mod Reload
pub mod Options
