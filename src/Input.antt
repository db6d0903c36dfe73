-- ===== src/Input.antt =====
-- Controller input of src/main/main.cpp: which device drives which N64 port, and what the port reads.
pub mod Pads
pub mod Read
pub mod Presence
pub mod Routing
pub mod Polling
pub mod Buttons
pub mod Stick
