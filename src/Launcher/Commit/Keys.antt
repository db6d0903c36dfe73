-- ===== src/Launcher/Commit/Keys.antt =====
-- The keys and the fixed values that the launcher writes are ones that every reader takes as they are.
use pocket_monsters_stadium.Libc.{is_space}
use pocket_monsters_stadium.Prelude.{
  ℕ, zero, suc, ◌<◌, ◌≡◌, refl, Bytes, codes, arith, Bool, true, false, not, ◌&&◌, if◌then◌else◌,
  bytes_eq, bytes_eq_iff, has_byte,
}
use pocket_monsters_stadium.Config.Lines.{is_plain, strip_end}
use pocket_monsters_stadium.Config.GameCfg.{trim, to_lower_str, port_key}
use pocket_monsters_stadium.Config.PakCfg
use pocket_monsters_stadium.Launcher.Commit.Items.{IsKey, IsClean, good_head}

-- A test for such a key, and one for such a value.
unfoldable pub key_test : Bytes → Bool
unfolding trim to_lower_str PakCfg.trim PakCfg.lower
key_test k =
    is_plain k
    && not (has_byte b'=' k)
    && good_head k
    && bytes_eq (trim k) k
    && bytes_eq (to_lower_str k) k
    && bytes_eq (PakCfg.trim k) k
    && bytes_eq (PakCfg.lower k) k

unfoldable pub value_test : Bytes → Bool
unfolding trim PakCfg.trim strip_end is_space
value_test v =
    is_plain v
    && bytes_eq (trim v) v
    && bytes_eq (PakCfg.trim v) v
    && bytes_eq (strip_end is_space v) v

pub IsKey-key_test : (k : Bytes) → key_test k ≡ true → IsKey k
unfolding key_test
IsKey-key_test k h = record {
  plain = ground arith;
  no_equals = ground arith;
  head = ground arith;
  trimmed = ground (arith, bytes_eq_iff (trim k) k);
  lowered = ground (arith, bytes_eq_iff (to_lower_str k) k);
  pak_trimmed = ground (arith, bytes_eq_iff (PakCfg.trim k) k);
  pak_lowered = ground (arith, bytes_eq_iff (PakCfg.lower k) k);
}

pub IsClean-value_test : (v : Bytes) → value_test v ≡ true → IsClean v
unfolding value_test
IsClean-value_test v h = record {
  plain = ground arith;
  trimmed = ground (arith, bytes_eq_iff (trim v) v);
  pak_trimmed = ground (arith, bytes_eq_iff (PakCfg.trim v) v);
  ended = ground (arith, bytes_eq_iff (strip_end is_space v) v);
}

-- The keys of a player.
pub record AreKeys (n : ℕ) : Type 0 where
  pub enabled : IsKey (port_key n (codes "_enabled"))
  pub device : IsKey (port_key n (codes "_device"))
  pub rom : IsKey (port_key n (codes "_rom"))
  pub rom_off : IsKey (port_key n (codes "_rom_off"))
  pub save : IsKey (port_key n (codes "_save"))
  pub save_off : IsKey (port_key n (codes "_save_off"))
  pub tpak : IsKey (port_key n (codes "_tpak"))

port_key-key_test :
    (n : ℕ) (suffix : Bytes)
    → key_test (port_key 0 suffix) ≡ true
    → key_test (port_key 1 suffix) ≡ true
    → key_test (port_key 2 suffix) ≡ true
    → key_test (port_key 3 suffix) ≡ true
    → n < 4
    → IsKey (port_key n suffix)
port_key-key_test zero s a b c d h = IsKey-key_test (port_key 0 s) a
port_key-key_test (suc zero) s a b c d h = IsKey-key_test (port_key 1 s) b
port_key-key_test (suc (suc zero)) s a b c d h = IsKey-key_test (port_key 2 s) c
port_key-key_test (suc (suc (suc zero))) s a b c d h = IsKey-key_test (port_key 3 s) d
port_key-key_test (suc (suc (suc (suc n)))) s a b c d h = absurd (omega arith)

pub port_keys : (n : ℕ) → n < 4 → AreKeys n
unfolding key_test
port_keys n h = record {
  enabled = port_key-key_test n (codes "_enabled") refl refl refl refl h;
  device = port_key-key_test n (codes "_device") refl refl refl refl h;
  rom = port_key-key_test n (codes "_rom") refl refl refl refl h;
  rom_off = port_key-key_test n (codes "_rom_off") refl refl refl refl h;
  save = port_key-key_test n (codes "_save") refl refl refl refl h;
  save_off = port_key-key_test n (codes "_save_off") refl refl refl refl h;
  tpak = port_key-key_test n (codes "_tpak") refl refl refl refl h;
}

-- A value chosen among fixed ones.
pub IsClean-if : (b : Bool) {v w : Bytes} → IsClean v → IsClean w → IsClean (if b then v else w)
IsClean-if true p q = p
IsClean-if false p q = q
