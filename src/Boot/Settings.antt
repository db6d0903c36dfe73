-- ===== src/Boot/Settings.antt =====
-- The settings taken from the environment, the turbo key and the VI heartbeat of src/main/main.cpp.
use pocket_monsters_stadium.Prelude.{
  ℕ, ◌+◌, ◌%◌, ◌^◌, Bool, true, false, ◌&&◌, ◌||◌, not, List, [], ◌∷◌, Option, none, some, ltb,
  ◌==◌, if◌then◌else◌, Bytes,
}
use pocket_monsters_stadium.Prelude.Int.{ℤ, pos, negsuc}
use pocket_monsters_stadium.Libc.{strtol}

-- PMS_TURBO: on unless its first character, the NUL of an empty text included, is one of these.
unfoldable pub turbo_default : Option Bytes → Bool
turbo_default none = false
turbo_default (some []) = true
turbo_default (some (c ∷ cs)) = not (c == b'0' || c == b'f' || c == b'F' || c == b'n' || c == b'N')

abbrev pub port_or_default : ℤ → ℕ
port_or_default (pos n) = if n == 0 || ltb 65535 n then 4372 else n
port_or_default (negsuc n) = 4372

-- PMS_DEBUG_PORT
unfoldable pub debug_port : Option Bytes → ℕ
debug_port none = 4372
debug_port (some p) = port_or_default (strtol p 10)

-- SDL's events, as far as they are told apart; the flag of a key press is SDL's repeat.
pub data Event : Type 0 where
  quit tab_up other_event : Event
  tab_down : Bool → Event

-- g_frame_count, g_fast_forward and s_turbo_persistent; `quitting` when the process has left.
pub record Gfx : Type 0 where
  pub frames : ℕ
  pub fast_forward : Bool
  pub persistent : Bool
  pub quitting : Bool

-- The loop over the pending events; the process leaves at the first quit.
unfoldable pub poll_events : List Event → Gfx → Gfx
poll_events [] g = g
poll_events (quit ∷ es) g = record g { quitting = true }
poll_events (tab_up ∷ es) g = poll_events es (record g { fast_forward = g.persistent })
poll_events (tab_down rep ∷ es) g =
    poll_events es (record g { fast_forward = if rep then g.fast_forward else true })
poll_events (other_event ∷ es) g = poll_events es g

unfoldable pub update_gfx : List Event → Gfx → Gfx
unfolding poll_events
update_gfx es g = poll_events es (record g { frames = g.frames + 1 })

-- What one VI tick does besides counting: a line of the log, and a dump of the trace rings.
pub record Beat : Type 0 where
  pub ticks : ℕ
  pub logged : Bool
  pub dumped : Bool

-- `watchdog` tells whether PMS_BOOT_WATCHDOG is set.
unfoldable pub vi_heartbeat : Bool → ℕ → Beat
vi_heartbeat watchdog ticks =
    let n = (ticks + 1) % 2 ^ 64 in
    record { ticks = n; logged = n % 60 == 0; dumped = watchdog && (n == 240 || n == 720) }
