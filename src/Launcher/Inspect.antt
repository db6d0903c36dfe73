-- ===== src/Launcher/Inspect.antt =====
-- The Transfer Pak inspector of src/launcher/pmsj_launcher_main.cpp: which cartridge a ROM is, and the
-- trainer of its save. A file is its bytes, or nothing when it cannot be opened. The table
-- kGen1JpCharmap and the sizes of the answer's buffers are parameters.
use pocket_monsters_stadium.Prelude.{
  ℕ, zero, suc, ◌+◌, ◌-◌, ◌*◌, ◌/◌, ◌%◌, ◌≤◌, ◌<◌, ◌≡◌, ◌≢◌, refl, ap, ◌∙◌, Bool, true, false, ◌&&◌,
  ◌||◌, [], ◌∷◌, ◌++◌, Option, none, some, arith, ltb, leb, ◌==◌, if◌then◌else◌, Bytes, codes,
  length, take, drop, set, get_elem?, after_text, get_elem?-set_ne,
}

-- RecompLauncherCTpak
pub record Tpak : Type 0 where
  pub valid : Bool
  pub cart_kind : ℕ
  pub cart_label : Bytes
  pub trainer_name : Bytes
  pub trainer_id : Bytes

abbrev pub no_answer : Tpak
no_answer = record {
  valid = false;
  cart_kind = 0;
  cart_label = [];
  trainer_name = [];
  trainer_id = [];
}

-- The sizes of the three buffers.
pub record TpakCaps : Type 0 where
  pub label : ℕ
  pub name : ℕ
  pub id : ℕ

-- snprintf cuts what does not fit.
abbrev pub fits : ℕ → Bytes → Bytes
fits cap s = take (cap - 1) s

abbrev pub is_some : Option Bytes → Bool
is_some none = false
is_some (some s) = true

unfoldable pub has : Bytes → Bytes → Bool
has title s = is_some (after_text s title)

-- The four names, in the order of the tests, with their kinds; 0 for none of them.
unfoldable pub kind_of : Bytes → ℕ
unfolding has
kind_of title =
    if has title (codes "YELLOW")
    then 3
    else if has title (codes "RED")
    then 1
    else if has title (codes "BLUE")
    then 2
    else if has title (codes "GREEN")
    then 4
    else 0

-- The name of the series and a blank, in UTF-8.
abbrev pub series : Bytes
series =
    0xE3 ∷ 0x83 ∷ 0x9D ∷ 0xE3 ∷ 0x82 ∷ 0xB1 ∷ 0xE3 ∷ 0x83 ∷ 0x83 ∷ 0xE3 ∷ 0x83 ∷ 0x88 ∷ 0xE3 ∷ 0x83
    ∷ 0xA2 ∷ 0xE3 ∷ 0x83 ∷ 0xB3 ∷ 0xE3 ∷ 0x82 ∷ 0xB9 ∷ 0xE3 ∷ 0x82 ∷ 0xBF ∷ 0xE3 ∷ 0x83 ∷ 0xBC
    ∷ 0x20 ∷ []

unfoldable pub label_of : ℕ → Bytes
label_of kind =
    if kind == 1
    then series ++ (0xE8 ∷ 0xB5 ∷ 0xA4 ∷ [])
    else if kind == 2
    then series ++ (0xE9 ∷ 0x9D ∷ 0x92 ∷ [])
    else if kind == 3
    then series
      ++ (0xE3 ∷ 0x83 ∷ 0x94 ∷ 0xE3 ∷ 0x82 ∷ 0xAB ∷ 0xE3 ∷ 0x83 ∷ 0x81 ∷ 0xE3 ∷ 0x83 ∷ 0xA5 ∷ 0xE3
          ∷ 0x82 ∷ 0xA6 ∷ [])
    else if kind == 4
    then series ++ (0xE7 ∷ 0xB7 ∷ 0x91 ∷ [])
    else []

unfoldable pub byte_sum : Bytes → ℕ
byte_sum [] = 0
byte_sum (c ∷ cs) = c + byte_sum cs

abbrev pub or_zero : Option ℕ → ℕ
or_zero none = 0
or_zero (some c) = c

-- The bytes from 0x2598 to 0x3522.
abbrev pub main_start : ℕ
main_start = 0x2598

abbrev pub main_size : ℕ
main_size = 0xF8B

unfoldable pub main_data : Bytes → Bytes
main_data sav = take main_size (drop main_start sav)

-- The save is long enough, and the checksum at 0x3523 is the complement of the sum.
unfoldable pub checks : Bytes → Bool
unfolding byte_sum main_data
checks sav =
    leb 0x3524 (length sav)
    && 255 - byte_sum (main_data sav) % 256 == or_zero (get_elem? sav 0x3523)

-- The glyphs of the name up to its end.
unfoldable pub decode : (ℕ → Bytes) → Bytes → Bytes
decode glyph [] = []
decode glyph (c ∷ cs) =
    let rest = decode glyph cs in if c == 0x50 || c == 0 then [] else glyph c ++ rest

abbrev pub digit_of : ℕ → ℕ
digit_of n = b'0' + n % 10

-- `%05d` of a number of 16 bits.
unfoldable pub five_digits : ℕ → Bytes
five_digits n =
    digit_of (n / 10000)
    ∷ digit_of (n / 1000)
    ∷ digit_of (n / 100)
    ∷ digit_of (n / 10)
    ∷ digit_of n
    ∷ []

unfoldable pub show_trainer : (ℕ → Bytes) → TpakCaps → Option Bytes → Tpak → Tpak
unfolding checks decode five_digits main_data
show_trainer glyph caps none t = t
show_trainer glyph caps (some sav) t =
    if checks sav
    then (record t {
      trainer_name = fits caps.name (decode glyph (take 11 (main_data sav)));
      trainer_id =
          fits caps.id
            (five_digits (or_zero (get_elem? sav 0x2605) * 256 + or_zero (get_elem? sav 0x2606)));
    })
    else t

unfoldable pub pmsj_tpak_inspect : (ℕ → Bytes) → TpakCaps → Option Bytes → Option Bytes → Tpak
unfolding kind_of label_of show_trainer
pmsj_tpak_inspect glyph caps none save = no_answer
pmsj_tpak_inspect glyph caps (some rom) save =
    let kind = kind_of (take 16 (drop 0x134 rom)) in
    if ltb (length rom) 0x150
    then no_answer
    else show_trainer glyph caps save (record {
      valid = true;
      cart_kind = kind;
      cart_label = fits caps.label (label_of kind);
      trainer_name = [];
      trainer_id = [];
    })

drop-set : (a k i v : ℕ) (xs : Bytes) → i ≡ a + k → drop a (set xs i v) ≡ set (drop a xs) k v
drop-set zero k i v xs h = let same : i ≡ k = omega arith in ap (λ n. set xs n v) same
drop-set (suc a) k i v [] h = refl
drop-set (suc a) k zero v (x ∷ xs) h = absurd (omega arith)
drop-set (suc a) k (suc i) v (x ∷ xs) h = drop-set a k i v xs (omega arith)

get_elem?-take :
    (n a k i : ℕ) (xs : Bytes)
    → i ≡ a + k
    → k < n
    → get_elem? (take n (drop a xs)) k ≡ get_elem? xs i
get_elem?-take zero (suc a) k i [] h g = absurd (omega arith)
get_elem?-take (suc n) (suc a) k i [] h g = refl
get_elem?-take n (suc a) k zero (x ∷ xs) h g = absurd (omega arith)
get_elem?-take n (suc a) k (suc i) (x ∷ xs) h g = get_elem?-take n a k i xs (omega arith) g
get_elem?-take zero zero k i xs h g = absurd (omega arith)
get_elem?-take (suc n) zero k i [] h g = refl
get_elem?-take (suc n) zero zero zero (x ∷ xs) h g = refl
get_elem?-take (suc n) zero zero (suc i) (x ∷ xs) h g = absurd (omega arith)
get_elem?-take (suc n) zero (suc k) zero (x ∷ xs) h g = absurd (omega arith)
get_elem?-take (suc n) zero (suc k) (suc i) (x ∷ xs) h g =
    get_elem?-take n zero k i xs (omega arith) (omega arith)

take-set : (n k v : ℕ) (xs : Bytes) → k < n → take n (set xs k v) ≡ set (take n xs) k v
take-set zero k v xs h = absurd (omega arith)
take-set (suc n) k v [] h = refl
take-set (suc n) zero v (x ∷ xs) h = refl
take-set (suc n) (suc k) v (x ∷ xs) h = ap (x ∷◌) (take-set n k v xs (omega arith))

byte_sum-set :
    (xs : Bytes) (k c v : ℕ) → get_elem? xs k ≡ some c → byte_sum (set xs k v) + c ≡ byte_sum xs + v
unfolding byte_sum
byte_sum-set [] k c v h = absurd cc
byte_sum-set (x ∷ xs) zero c v h = let same : x ≡ c = ap or_zero h in omega arith
byte_sum-set (x ∷ xs) (suc k) c v h = omega (arith, byte_sum-set xs k c v h)

-- Changing one byte moves the sum of the main data by the difference.
byte_sum-main_data :
    (sav : Bytes) (i c v : ℕ)
    → main_start ≤ i
    → i < main_start + main_size
    → get_elem? sav i ≡ some c
    → byte_sum (main_data (set sav i v)) + c ≡ byte_sum (main_data sav) + v
unfolding main_data
byte_sum-main_data sav i c v low high h =
    let at : i ≡ main_start + (i - main_start) = omega arith in
    let into = drop-set main_start (i - main_start) i v sav at in
    let cut = take-set main_size (i - main_start) v (drop main_start sav) (omega arith) in
    let there = get_elem?-take main_size main_start (i - main_start) i sav at (omega arith) in
    rw (into, cut)
      (byte_sum-set (take main_size (drop main_start sav)) (i - main_start) c v (there ∙ h))

-- The checksum that a save with this sum should have.
complement_ne :
    (a b c v : ℕ) → a + c ≡ b + v → c < 256 → v < 256 → c ≢ v → (255 - a % 256) ≢ (255 - b % 256)
complement_ne a b c v e h g ne = omega arith

unlike_checked : (b d : Bool) (x y z : ℕ) → (b && x == z) ≡ true → y ≢ x → (d && y == z) ≡ false
unlike_checked b d x y z ok ne = ground arith

checks-set :
    (sav : Bytes) (i c v : ℕ)
    → main_start ≤ i
    → i < main_start + main_size
    → get_elem? sav i ≡ some c
    → c < 256
    → v < 256
    → c ≢ v
    → checks sav ≡ true
    → checks (set sav i v) ≡ false
unfolding checks
checks-set sav i c v low high h bc bv ne ok =
    let moved = byte_sum-main_data sav i c v low high h in
    let stored = get_elem?-set_ne sav {i = i} {j = 0x3523} v (λ e. omega arith) in
    let apart =
      complement_ne (byte_sum (main_data (set sav i v))) (byte_sum (main_data sav)) c v moved bc bv
        ne in
    rw stored (unlike_checked _ _ _ _ _ ok apart)

-- A save whose checksum is right and in whose main data a single byte is then changed shows no
-- trainer any more; what is said of the cartridge stays.
pub inspect_damaged :
    (glyph : ℕ → Bytes) (caps : TpakCaps) (rom : Option Bytes) (sav : Bytes) (i c v : ℕ)
    → main_start ≤ i
    → i < main_start + main_size
    → get_elem? sav i ≡ some c
    → c < 256
    → v < 256
    → c ≢ v
    → checks sav ≡ true
    → pmsj_tpak_inspect glyph caps rom (some (set sav i v)) ≡ pmsj_tpak_inspect glyph caps rom none
unfolding pmsj_tpak_inspect show_trainer
inspect_damaged glyph caps none sav i c v low high h bc bv ne ok = refl
inspect_damaged glyph caps (some rom) sav i c v low high h bc bv ne ok =
    rw (checks-set sav i c v low high h bc bv ne ok) refl
