-- ===== src/Diagnostics.antt =====
-- The always-on rings and the reports of src/main/diagnostics.cpp.
pub mod Trace
pub mod Script
pub mod Names
pub mod Threads
pub mod Report
pub mod Runs
