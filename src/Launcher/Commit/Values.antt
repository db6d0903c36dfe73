-- ===== src/Launcher/Commit/Values.antt =====
-- The values under the keys of a committed file.
use pocket_monsters_stadium.Prelude.Int.{ℤ, pos, leb_ℤ, eqb_ℤ}
use pocket_monsters_stadium.Prelude.{
  ℕ, zero, suc, ◌+◌, ◌<◌, ◌≡◌, ◌≢◌, refl, ◌∙◌, [], ◌∷◌, ◌++◌, Option, none, some, Bytes, codes,
  arith, Bool, true, false, not, ◌&&◌, ◌==◌, if◌then◌else◌, bytes_eq, Bool-cases, inl, inr,
}
use pocket_monsters_stadium.Config.GameCfg.{port_key}
use pocket_monsters_stadium.Launcher.Settings.{Player, Settings}
use pocket_monsters_stadium.Launcher.Write.{
  entry, on_off, clamped, source_digit, save_item, pak_items, player_items, head_items, tail_items,
  settings_items,
}
use pocket_monsters_stadium.Launcher.Commit.Items.{
  or_else, or_else-none, last_value, last_value-append, not_empty,
}

module _ (keep : Bytes → Bool) where
  save_item-other :
      (j k v : Bytes) → bytes_eq k j ≡ false → last_value keep j (save_item k v) ≡ none
  save_item-other j k [] h = refl
  save_item-other j k (c ∷ cs) h = rw h

  pak_items-other :
      (m n : ℕ) (p : Player) (rom suffix : Bytes)
      → (b'1' + m == b'1' + n) ≡ false
      → last_value keep (port_key n suffix) (pak_items m p rom) ≡ none
  unfolding pak_items
  pak_items-other m n p [] suffix h = refl
  pak_items-other m n p (c ∷ cs) suffix h =
      rw
        (
          h,
          last_value-append keep (port_key n suffix)
              (save_item
                (port_key m
                  (if leb_ℤ (pos 0) p.tpak_enabled then codes "_save" else codes "_save_off"))
                p.tpak_save_path)
              (entry (port_key m (codes "_tpak")) (on_off (leb_ℤ (pos 0) p.tpak_enabled)) ∷ []),
          h,
          save_item-other (port_key n suffix)
              (port_key m
                (if leb_ℤ (pos 0) p.tpak_enabled then codes "_save" else codes "_save_off"))
              p.tpak_save_path (rw h),
        )
        refl

  -- The entries of one player do not touch another's keys.
  player_items-other :
      (m n : ℕ) (p : Player) (suffix : Bytes)
      → m ≢ n
      → last_value keep (port_key n suffix) (player_items m p) ≡ none
  unfolding player_items
  player_items-other m n p suffix ne =
      let differs : (b'1' + m == b'1' + n) ≡ false = ground arith in
      rw (pak_items-other m n p p.tpak_rom_path suffix differs, differs)

  -- The value under a player's key is the one that the player's own entries give it.
  pub last_value-settings_items :
      (s : Settings) (n : ℕ) (suffix : Bytes)
      → n < 4
      → last_value keep (port_key n suffix) (settings_items s)
        ≡ last_value keep (port_key n suffix) (player_items n (s.player n))
  unfolding settings_items
  last_value-settings_items s n suffix h =
      let j = port_key n suffix in
      let tail = tail_items s in
      let three = player_items 3 (s.player 3) in
      let two = player_items 2 (s.player 2) in
      let one = player_items 1 (s.player 1) in
      let nil = player_items 0 (s.player 0) in
      let last : last_value keep j tail ≡ none = unfold tail_items in refl in
      let first : last_value keep j head_items ≡ none = unfold head_items in refl in
      last_value-append keep j head_items (nil ++ (one ++ (two ++ (three ++ tail))))
      ∙ rw
          (
            first,
            last_value-append keep j nil (one ++ (two ++ (three ++ tail))),
            last_value-append keep j one (two ++ (three ++ tail)),
            last_value-append keep j two (three ++ tail),
            last_value-append keep j three tail,
            last,
          )
          (only n h)
    where
      value : ℕ → ℕ → Option Bytes
      value n m = last_value keep (port_key n suffix) (player_items m (s.player m))

      other : (m n : ℕ) → m ≢ n → value n m ≡ none
      other m n ne = player_items-other m n (s.player m) suffix ne

      only :
          (n : ℕ)
          → n < 4
          → or_else
              (or_else
                (or_else (or_else (or_else none (value n 3)) (value n 2)) (value n 1))
                (value n 0))
              none
            ≡ value n n
      only zero h =
          rw (other 3 0 (omega arith), other 2 0 (omega arith), other 1 0 (omega arith))
            (or_else-none (value 0 0))
      only (suc zero) h =
          rw
            (
              other 3 1 (omega arith),
              other 2 1 (omega arith),
              other 0 1 (omega arith),
              or_else-none (value 1 1),
            )
            (or_else-none (value 1 1))
      only (suc (suc zero)) h =
          rw
            (
              other 3 2 (omega arith),
              other 1 2 (omega arith),
              other 0 2 (omega arith),
              or_else-none (value 2 2),
              or_else-none (value 2 2),
            )
            (or_else-none (value 2 2))
      only (suc (suc (suc zero))) h =
          rw
            (
              other 2 3 (omega arith),
              other 1 3 (omega arith),
              other 0 3 (omega arith),
              or_else-none (value 3 3),
              or_else-none (value 3 3),
              or_else-none (value 3 3),
            )
            (or_else-none (value 3 3))
      only (suc (suc (suc (suc n)))) h = absurd (omega arith)

  bytes_eq-port_key : (n : ℕ) (s t : Bytes) → bytes_eq (port_key n s) (port_key n t) ≡ bytes_eq s t
  bytes_eq-port_key n s t = let self : (b'1' + n == b'1' + n) ≡ true = ground arith in rw self

  module _ (keeps : (c : ℕ) (cs : Bytes) → keep (c ∷ cs) ≡ true) where
    save_item-own :
        (j k v : Bytes)
        → last_value keep j (save_item k v) ≡ (if bytes_eq k j && not_empty v then some v else none)
    save_item-own j k [] = ground arith
    save_item-own j k (c ∷ cs) = rw (keeps c cs)

    -- The value under a key of the player, where there is a cart.
    pak_items-own :
        (n : ℕ) (p : Player) (c : ℕ) (cs suffix : Bytes)
        → let on = leb_ℤ (pos 0) p.tpak_enabled in
          let save = p.tpak_save_path in
          let rom_key = if on then codes "_rom" else codes "_rom_off" in
          let save_key = if on then codes "_save" else codes "_save_off" in
          last_value keep (port_key n suffix) (pak_items n p (c ∷ cs))
          ≡ or_else
              (or_else
                (if bytes_eq (codes "_tpak") suffix && keep (on_off on)
                  then some (on_off on)
                  else none)
                (if bytes_eq save_key suffix && not_empty save then some save else none))
              (if bytes_eq rom_key suffix && true then some (c ∷ cs) else none)
    unfolding pak_items
    pak_items-own n p c cs suffix =
        let on = leb_ℤ (pos 0) p.tpak_enabled in
        let j = port_key n suffix in
        let save_key = port_key n (if on then codes "_save" else codes "_save_off") in
        let self : (b'1' + n == b'1' + n) ≡ true = ground arith in
        rw
          (
            last_value-append keep j (save_item save_key p.tpak_save_path)
                (entry (port_key n (codes "_tpak")) (on_off on) ∷ []),
            save_item-own j save_key p.tpak_save_path,
            self,
            keeps c cs,
          )
          refl

    -- The device is always written, as one digit.
    pub device-player_items :
        (n : ℕ) (p : Player)
        → last_value keep (port_key n (codes "_device")) (player_items n p)
          ≡ some (source_digit (clamped p.player_src))
    unfolding player_items
    device-player_items n p =
        rw (self, none_here p.tpak_rom_path, digit (clamped p.player_src)) refl
      where
        self : (b'1' + n == b'1' + n) ≡ true
        self = ground arith

        digit : (x : ℤ) → keep (source_digit x) ≡ true
        digit x = elim (Bool-cases (eqb_ℤ x (pos 0))) [
          | inl e ↦ rw e (keeps _ _)
          | inr e ↦ rw e (elim (Bool-cases (eqb_ℤ x (pos 1))) [
            | inl f ↦ rw f (keeps _ _)
            | inr f ↦ rw f (keeps _ _)
          ])
        ]

        none_here :
            (rom : Bytes)
            → last_value keep (port_key n (codes "_device")) (pak_items n p rom) ≡ none
        none_here [] = unfold pak_items in refl
        none_here (c ∷ cs) = elim (Bool-cases (leb_ℤ (pos 0) p.tpak_enabled)) [
          | inl e ↦ rw (pak_items-own n p c cs (codes "_device"), e) refl
          | inr e ↦ rw (pak_items-own n p c cs (codes "_device"), e) refl
        ]

    -- Any other key of the player stands among the entries of its cart.
    player_items-pak :
        (n : ℕ) (p : Player) (suffix : Bytes)
        → bytes_eq (codes "_enabled") suffix ≡ false
        → bytes_eq (codes "_device") suffix ≡ false
        → last_value keep (port_key n suffix) (player_items n p)
          ≡ last_value keep (port_key n suffix) (pak_items n p p.tpak_rom_path)
    unfolding player_items
    player_items-pak n p suffix e d =
        let self : (b'1' + n == b'1' + n) ≡ true = ground arith in
        let own = last_value keep (port_key n suffix) (pak_items n p p.tpak_rom_path) in
        rw (self, e, d) (or_else-none (or_else own none) ∙ or_else-none own)

    -- The cart that the Transfer Pak is to load: the path given, if there is one and the pak is on.
    pub rom-player_items :
        (n : ℕ) (p : Player)
        → last_value keep (port_key n (codes "_rom")) (player_items n p) ≡ (
            if leb_ℤ (pos 0) p.tpak_enabled && not_empty p.tpak_rom_path
            then some p.tpak_rom_path
            else none)
    rom-player_items n p = player_items-pak n p (codes "_rom") refl refl ∙ own p.tpak_rom_path
      where
        own :
            (rom : Bytes)
            → last_value keep (port_key n (codes "_rom")) (pak_items n p rom)
              ≡ (if leb_ℤ (pos 0) p.tpak_enabled && not_empty rom then some rom else none)
        own [] = unfold pak_items in ground arith
        own (c ∷ cs) = elim (Bool-cases (leb_ℤ (pos 0) p.tpak_enabled)) [
          | inl e ↦ rw (pak_items-own n p c cs (codes "_rom"), e) refl
          | inr e ↦ rw (pak_items-own n p c cs (codes "_rom"), e) refl
        ]

    -- The cart that is kept while the pak is off.
    pub rom_off-player_items :
        (n : ℕ) (p : Player)
        → last_value keep (port_key n (codes "_rom_off")) (player_items n p) ≡ (
            if not (leb_ℤ (pos 0) p.tpak_enabled) && not_empty p.tpak_rom_path
            then some p.tpak_rom_path
            else none)
    rom_off-player_items n p =
        player_items-pak n p (codes "_rom_off") refl refl ∙ own p.tpak_rom_path
      where
        own :
            (rom : Bytes)
            → last_value keep (port_key n (codes "_rom_off")) (pak_items n p rom)
              ≡ (if not (leb_ℤ (pos 0) p.tpak_enabled) && not_empty rom then some rom else none)
        own [] = unfold pak_items in ground arith
        own (c ∷ cs) = elim (Bool-cases (leb_ℤ (pos 0) p.tpak_enabled)) [
          | inl e ↦ rw (pak_items-own n p c cs (codes "_rom_off"), e) refl
          | inr e ↦ rw (pak_items-own n p c cs (codes "_rom_off"), e) refl
        ]

    -- The save file that goes with the cart, if a path is given.
    pub save-player_items :
        (n : ℕ) (p : Player)
        → last_value keep (port_key n (codes "_save")) (player_items n p) ≡ (
            if leb_ℤ (pos 0) p.tpak_enabled
              && not_empty p.tpak_rom_path
              && not_empty p.tpak_save_path
            then some p.tpak_save_path
            else none)
    save-player_items n p = player_items-pak n p (codes "_save") refl refl ∙ own p.tpak_rom_path
      where
        own :
            (rom : Bytes)
            → last_value keep (port_key n (codes "_save")) (pak_items n p rom) ≡ (
                if leb_ℤ (pos 0) p.tpak_enabled && not_empty rom && not_empty p.tpak_save_path
                then some p.tpak_save_path
                else none)
        own [] = unfold pak_items in ground arith
        own (c ∷ cs) = elim (Bool-cases (leb_ℤ (pos 0) p.tpak_enabled)) [
          | inl e ↦ rw (pak_items-own n p c cs (codes "_save"), e) (or_else-none _)
          | inr e ↦ rw (pak_items-own n p c cs (codes "_save"), e) (or_else-none _)
        ]

    -- The save file that is kept while the pak is off.
    pub save_off-player_items :
        (n : ℕ) (p : Player)
        → last_value keep (port_key n (codes "_save_off")) (player_items n p) ≡ (
            if not (leb_ℤ (pos 0) p.tpak_enabled)
              && not_empty p.tpak_rom_path
              && not_empty p.tpak_save_path
            then some p.tpak_save_path
            else none)
    save_off-player_items n p =
        player_items-pak n p (codes "_save_off") refl refl ∙ own p.tpak_rom_path
      where
        own :
            (rom : Bytes)
            → last_value keep (port_key n (codes "_save_off")) (pak_items n p rom) ≡ (
                if not (leb_ℤ (pos 0) p.tpak_enabled) && not_empty rom && not_empty p.tpak_save_path
                then some p.tpak_save_path
                else none)
        own [] = unfold pak_items in ground arith
        own (c ∷ cs) = elim (Bool-cases (leb_ℤ (pos 0) p.tpak_enabled)) [
          | inl e ↦ rw (pak_items-own n p c cs (codes "_save_off"), e) (or_else-none _)
          | inr e ↦ rw (pak_items-own n p c cs (codes "_save_off"), e) (or_else-none _)
        ]
