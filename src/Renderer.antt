-- ===== src/Renderer.antt =====
-- The configuration of the renderer (src/main/rt64_render_context.cpp). RT64 and ultramodern are
-- libraries: their options are enumerations with the names that the source uses.
use Prim.Native.Nat.{bit_and}
use pocket_monsters_stadium.Prelude.{
  ℕ, ◌+◌, ◌-◌, ◌/◌, ◌%◌, ◌^◌, Bool, true, false, ◌&&◌, ◌||◌, not, List, [], ◌∷◌, ◌++◌, Option, none,
  some, ltb, leb, ◌==◌, if◌then◌else◌, Bytes, codes, bytes_eq, max,
}
use pocket_monsters_stadium.Prelude.Int.{ℤ, pos, negsuc}
use pocket_monsters_stadium.Libc.{atoi}

pub data Msaa : Type 0 where
  no_msaa msaa2x msaa4x msaa8x : Msaa

abbrev pub has_bit : ℕ → ℕ → Bool
has_bit bits b = not (bit_and bits b == 0)

-- The sample counts are a set of bits; the bit of a count is its value.
unfoldable pub compute_max_supported_aa : ℕ → Msaa
compute_max_supported_aa bits =
    if has_bit bits 2
    then if has_bit bits 4 then if has_bit bits 8 then msaa8x else msaa4x else msaa2x
    else no_msaa

-- ultramodern's options; `unlisted` stands for a value that is none of the enumerators.
pub data Ratio : Type 0 where
  original expand manual option_count unlisted : Ratio

pub data Refresh : Type 0 where
  original display manual option_count unlisted : Refresh

pub data HighPrecision : Type 0 where
  off on auto option_count unlisted : HighPrecision

pub data HudRatio : Type 0 where
  original clamp16x9 full unlisted : HudRatio

pub data Api : Type 0 where
  d3d12 vulkan metal auto unlisted : Api

-- RT64's.
pub data RtRatio : Type 0 where
  original expand manual option_count : RtRatio

pub data RtRefresh : Type 0 where
  original display manual option_count : RtRefresh

pub data ColorFormat : Type 0 where
  standard high automatic option_count : ColorFormat

pub data Resolution : Type 0 where
  original window_integer_scale manual : Resolution

unfoldable pub ratio_to_rt64 : Ratio → RtRatio
ratio_to_rt64 original = RtRatio.original
ratio_to_rt64 expand = RtRatio.expand
ratio_to_rt64 manual = RtRatio.manual
ratio_to_rt64 option_count = RtRatio.option_count
ratio_to_rt64 unlisted = RtRatio.original

unfoldable pub refresh_to_rt64 : Refresh → RtRefresh
refresh_to_rt64 original = RtRefresh.original
refresh_to_rt64 display = RtRefresh.display
refresh_to_rt64 manual = RtRefresh.manual
refresh_to_rt64 option_count = RtRefresh.option_count
refresh_to_rt64 unlisted = RtRefresh.original

unfoldable pub format_to_rt64 : HighPrecision → ColorFormat
format_to_rt64 off = standard
format_to_rt64 on = high
format_to_rt64 auto = automatic
format_to_rt64 option_count = ColorFormat.option_count
format_to_rt64 unlisted = automatic

-- GraphicsConfig, as far as it is read.
pub record GraphicsConfig : Type 0 where
  pub ar_option : Ratio
  pub rr_option : Refresh
  pub rr_manual_value : ℕ
  pub hr_option : HudRatio
  pub hpfb_option : HighPrecision
  pub api_option : Api
  pub msaa_option : ℕ
  pub fullscreen : Bool

-- RT64's UserConfiguration; a multiplier is a double, of type `D`, and `wide` tells that the target of
-- the extended ratio has been set to 16:9.
pub record UserConfig (D : Type 0) : Type 0 where
  pub resolution : Resolution
  pub multiplier : D
  pub downsample : ℕ
  pub ext_ratio : RtRatio
  pub wide : Bool
  pub ratio : RtRatio
  pub antialiasing : Msaa
  pub refresh : RtRefresh
  pub refresh_target : ℕ
  pub format : ColorFormat
  pub triple_buffering : Bool
  pub three_point : Bool

-- The environment's PMS_RT64_RES_MULT, PMS_RT64_DOWNSAMPLE and PMS_RT64_MSAA.
pub record Env : Type 0 where
  pub res_mult : Option Bytes
  pub downsample : Option Bytes
  pub msaa : Option Bytes

abbrev pub either : Bytes → Bytes → Bytes → Bool
either s a b = bytes_eq s a || bytes_eq s b

-- The names and numbers that PMS_RT64_MSAA may hold; any other changes nothing.
unfoldable pub msaa_named : Bytes → Msaa → Msaa
msaa_named s aa =
    if either s (codes "None") (codes "0")
    then no_msaa
    else if either s (codes "MSAA2X") (codes "2")
    then msaa2x
    else if either s (codes "MSAA4X") (codes "4")
    then msaa4x
    else if either s (codes "MSAA8X") (codes "8")
    then msaa8x
    else aa

abbrev pub msaa_from : Option Bytes → Msaa → Msaa
msaa_from none aa = aa
msaa_from (some s) aa = msaa_named s aa

abbrev pub downsample_value : ℤ → ℕ → ℕ
downsample_value (pos n) d = if leb 1 n && leb n 8 then n else d
downsample_value (negsuc n) d = d

abbrev pub downsample_from : Option Bytes → ℕ → ℕ
downsample_from none d = d
downsample_from (some s) d = downsample_value (atoi s) d

abbrev pub ext_ratio_of : HudRatio → RtRatio
ext_ratio_of clamp16x9 = RtRatio.manual
ext_ratio_of full = RtRatio.expand
ext_ratio_of original = RtRatio.original
ext_ratio_of unlisted = RtRatio.original

abbrev pub wide_of : HudRatio → Bool → Bool
wide_of clamp16x9 w = true
wide_of h w = w

-- Whether the two window modes differ.
abbrev pub flips : Bool → Bool → Bool
flips true b = not b
flips false b = b

-- `six` is 6.0; `parse` is strtod, `none` where it reads nothing or not a number from 1 to 16.
module _ {D : Type 0} (six : D) (parse : Bytes → Option D) where
  abbrev pub forced : Option D → UserConfig D → UserConfig D
  forced none u = u
  forced (some m) u = record u { resolution = Resolution.manual; multiplier = m; downsample = 1 }

  abbrev pub res_mult_from : Option Bytes → UserConfig D → UserConfig D
  res_mult_from none u = u
  res_mult_from (some s) u = forced (parse s) u

  -- The fixed values and those of the configuration.
  unfoldable pub configured : GraphicsConfig → UserConfig D → UserConfig D
  unfolding ratio_to_rt64 refresh_to_rt64 format_to_rt64
  configured c u = record {
    resolution = Resolution.manual;
    multiplier = six;
    downsample = 2;
    ext_ratio = ext_ratio_of c.hr_option;
    wide = wide_of c.hr_option u.wide;
    ratio = ratio_to_rt64 c.ar_option;
    antialiasing = msaa4x;
    refresh = refresh_to_rt64 c.rr_option;
    refresh_target = c.rr_manual_value;
    format = format_to_rt64 c.hpfb_option;
    triple_buffering = true;
    three_point = false;
  }

  unfoldable pub set_application_user_config : Env → GraphicsConfig → UserConfig D → UserConfig D
  unfolding configured msaa_named
  set_application_user_config env c u =
      let v = res_mult_from env.res_mult (configured c u) in
      record v {
        downsample = downsample_from env.downsample v.downsample;
        antialiasing = msaa_from env.msaa v.antialiasing;
      }

  -- What update_config asks RT64 for.
  pub data Call : Type 0 where
    set_full_screen : Bool → Call
    update_user_config : UserConfig D → Call
    update_multisampling : Call

  -- `same` is ultramodern's comparison of the two configurations.
  unfoldable pub update_config :
      Env → Bool → GraphicsConfig → GraphicsConfig → UserConfig D → Bool × List Call
  unfolding set_application_user_config
  update_config env same old new u = if same then (false, []) else (
    true,
    (if flips old.fullscreen new.fullscreen then set_full_screen new.fullscreen ∷ [] else [])
        ++ (update_user_config (set_application_user_config env new u)
            ∷ (if old.msaa_option == new.msaa_option then [] else update_multisampling ∷ [])),
  )

-- RT64's results of the setup; ultramodern's have the same names. `none` where the source exits.
pub data SetupResult : Type 0 where
  success dynamic_libraries_not_found invalid_graphics_api graphics_api_not_found : SetupResult
  graphics_device_not_found unlisted : SetupResult

unfoldable pub map_setup_result : SetupResult → Option SetupResult
map_setup_result unlisted = none
map_setup_result r = some r

unfoldable pub map_graphics_api : Api → Option Api
map_graphics_api unlisted = none
map_graphics_api api = some api

-- The physical addresses that a display list is loaded from: `& 0x3FFFFFF`.
unfoldable pub dl_address : ℕ → ℕ
dl_address p = p % 2 ^ 26

-- A window of `height` lines in whole multiples of 240; the other case is the multiplier.
unfoldable pub window_scale : ℕ → ℕ
window_scale height = if ltb 0 height then max ((height + 240 - 1) / 240) 1 else 1
