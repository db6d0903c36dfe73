-- ===== src/Tests.antt =====
-- The theorems at concrete inputs.
mod Guest
mod Census
mod Launcher
mod Inspect
mod Input
mod Debug
mod Translate
mod Diagnostics
mod Boot
