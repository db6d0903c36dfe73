-- ===== src/Debug.antt =====
-- The TCP debug server, src/main/debug_server.cpp: its requests, the input override, memory reads, the
-- framing of lines, the dumps of the runtime's rings, and the handling of a line as a whole.
pub mod Request
pub mod Overrides
pub mod ReadMem
pub mod Framing
pub mod Sched
pub mod Mesg
pub mod Answer
pub mod Handle
