-- ===== src/Launcher/Settings.antt =====
-- The fields of RecompLauncherCSettings that src/launcher/pmsj_launcher_main.cpp reads and writes. A C
-- string is its bytes up to the NUL.
use pocket_monsters_stadium.Prelude.Int.{ℤ}
use pocket_monsters_stadium.Prelude.{ℕ, Bytes}

-- The fields that there is one of for each player.
pub record Player : Type 0 where
  pub player_src : ℤ
  pub tpak_rom_path : Bytes
  pub tpak_save_path : Bytes
  pub tpak_enabled : ℤ

pub record Settings : Type 0 where
  -- players 0 to 3
  pub player : ℕ → Player
  pub enable_audio : ℤ
  pub audio_freq : ℤ
  pub volume : ℤ
  pub output_method : ℤ
  pub window_scale : ℤ
  pub renderer : ℤ
  pub supersampling : ℤ
  pub antialiasing : ℤ
  pub fullscreen : ℤ
  pub audio_device : Bytes
  pub skip_launcher : ℤ

-- The sizes of the character arrays, which the header of recomp-ui declares.
pub record Capacities : Type 0 where
  pub rom_path : ℕ
  pub save_path : ℕ
  pub audio_device : ℕ
