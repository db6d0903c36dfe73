-- ===== src/Translate/Context.antt =====
-- The registers of a recompiled function that the translation hook of src/main/diagnostics.cpp reads or
-- writes, and what it takes from the generated code and from floating point.
use pocket_monsters_stadium.Prelude.{ℕ, ◌%◌, ◌^◌, Bool}
use pocket_monsters_stadium.Memory.{Rdram}

-- recomp_context; the registers are 64 bits wide. `others` stands for the general registers not named,
-- the floating point registers, hi and lo, which the hook neither reads nor writes itself.
pub record Context : Type 0 where
  pub r2 : ℕ
  pub r3 : ℕ
  pub r4 : ℕ
  pub r5 : ℕ
  pub r6 : ℕ
  pub r7 : ℕ
  pub r8 : ℕ
  pub r9 : ℕ
  pub r16 : ℕ
  pub r17 : ℕ
  pub r18 : ℕ
  pub r19 : ℕ
  pub r29 : ℕ
  pub r31 : ℕ
  pub others : ℕ → ℕ

-- `(uint32_t)r`
abbrev pub word : ℕ → ℕ
word r = r % 2 ^ 32

-- A recompiled function: what it makes of memory and of its copy of the registers.
abbrev pub Emitted : Type 0
Emitted = Rdram → Context → Rdram × Context

-- FUN_8001a3e4, FUN_80019f70, and the scale of a line, a float: `1.0f`, the quotient of two widths,
-- `sc < 1.0f`, and `(int)((float)adv * sc + 0.5f)`.
pub record Outside : Type 1 where
  pub draw_glyph : Emitted
  pub sheet_index : Emitted
  pub Scale : Type 0
  pub one : Scale
  pub ratio : ℕ → ℕ → Scale
  pub condenses : Scale → Bool
  pub condense : ℕ → Scale → ℕ
