-- ===== src/Lib.antt =====
-- Verification of PocketMonstersStadiumRecomp: the native host around the recompiled Pokemon Stadium
-- (Japan). A launcher writes launcher.cfg; the game reads it twice, once to route controllers to ports
-- and once to register Transfer Pak carts; diagnostics hook every recompiled function to collect the
-- texts that the game draws and to put translations in their place; a debug server on TCP can press
-- buttons and read guest memory.
--
-- Which file models which part:
--   Libc           isspace, tolower, strtoul, strtol and atoi of the C library
--   Memory         pms_diag_rdram_range, pms_diag_copy_bytes, pms_diag_read_u32, guest_rb,
--                  read_text_arg and write_guest_str of src/main/diagnostics.cpp
--   Scratch        swap_scratch of src/main/diagnostics.cpp
--   Translate      the translation layer of src/main/diagnostics.cpp: the content hash (Fnv), the scan of
--                  translations.json (Json, Load), self_render_static with the glyph widths (Render,
--                  Glyph), xlate_discovery (Discovery), xlate_general and xlate_desc (Hook), and
--                  pkmnstadium_text_xlate as a whole (Draw)
--   Census         textpc_contains, textpc_add, strinv_upsert, pkmnstadium_textdraw_probe,
--                  pkmnstadium_memscan and the ranking of the dumps of src/main/diagnostics.cpp
--   Diagnostics    the function-name ring (Trace, Runs), the script dispatch ring (Script), the names of
--                  opcodes and states (Names), the thread lists (Threads) and the summaries of the
--                  watchdog's report (Report) of src/main/diagnostics.cpp
--   Config         the readers of launcher.cfg: src/main/launcher_cfg.cpp (GameCfg) and
--                  src/main/transfer_pak.cpp (PakCfg)
--   Launcher       load_cfg_into_settings (Load) and write_settings_to_cfg (Write) of
--                  src/launcher/pmsj_launcher_main.cpp; Commit relates the written file to all
--                  readers; Inspect is pmsj_tpak_inspect
--   Input          the routing tables, get_n64_input, get_connected_device_info and set_rumble of
--                  src/main/main.cpp
--   Debug          src/main/debug_server.cpp: the request fields, the input override, read_mem, the
--                  tables of dump_sched (Sched) and dump_mesg (Mesg), client_loop (Framing), and
--                  handle_line with the values it gives (Answer, Handle)
--   Boot           the choice of the ROM (Rom), the environment's settings, update_gfx and the VI
--                  heartbeat (Settings) of src/main/main.cpp
--   Audio          the audio queue of src/main/main.cpp
--   Rsp            get_rsp_microcode of src/main/main.cpp and aspmain_pre_task of
--                  src/main/rsp_aspmain_hook.cpp
--   Renderer       the configuration mapping of src/main/rt64_render_context.cpp
--   Prelude        lists, texts, integers and bitwise operations; Tests holds concrete inputs
--
-- State is a record and every operation a function from state to state. A 32-bit or 64-bit unsigned
-- value is a natural number with its wrap-around written out; an int is an integer. RDRAM is a function
-- from host index to byte, and the file launcher.cfg is its bytes. Loops over memory are recursive on
-- the number of rounds that the source fixes: 256 bytes for a text, 512 slots for the set of PCs. The
-- scan of translations.json takes the length of the file and two as its fuel, since each entry is shorter
-- than what is left; the memory scan takes one round for each byte of RDRAM and one more.
-- Where threads share the set of PCs, one atomic access is one step and a run is any sequence of steps.
-- The accesses are relaxed in the source; here they follow one another, and a lookup sees the table at one
-- moment.
--
-- Parameters stand for what the repository does not hold: SDL's joysticks, pads, keyboard and audio
-- converter, the float operations of the deadzone and of the renderer's scale, the registry of
-- carts, the ROM validation and the DMA of librecomp, the environment, the file system, the layout
-- of the runtime's threads, and the recompiled routines: FUN_8001a3e4 and FUN_80019f70 are
-- functions of memory and registers, njpgdspMain a function of RDRAM and DMEM. The inspector takes
-- the kana table of src/main/gen1_charmap_jp.h as an argument.
--
-- Not modelled: the generated RSP microcode under rsp; the construction of the renderer's context, windows
-- and threads, which are calls of libraries; the crash handlers; the text of the dumps and the font dump of
-- src/main/diagnostics.cpp; the launcher's window and main flow; the text of the debug
-- server's dumps and the runtime's table of thread states, its start, shutdown and sockets.
pub mod Prelude
pub mod Libc
pub mod Memory
pub mod Scratch
pub mod Translate
pub mod Census
pub mod Config
pub mod Launcher
pub mod Input
pub mod Debug
pub mod Diagnostics
pub mod Boot
pub mod Audio
pub mod Rsp
pub mod Renderer
pub mod Tests
