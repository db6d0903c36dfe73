-- ===== src/Census/TextPc.antt =====
-- The lock-free set of text-draw PCs of src/main/diagnostics.cpp: open addressing over 512 slots,
-- slot value 0 for an empty one, no removal. Here as one thread alone sees it; the interleavings are
-- in Interleave.
pub mod Lookup
pub mod Insert
pub mod Interleave
use pocket_monsters_stadium.Prelude.{
  ℕ, zero, suc, ◌+◌, ◌*◌, ◌%◌, ◌^◌, Bool, true, false, ◌==◌, if◌then◌else◌,
}

-- kTextPcSetN
abbrev pub slots : ℕ
slots = 512

-- The value of each slot.
abbrev pub Table : Type 0
Table = ℕ → ℕ

abbrev pub empty : Table
empty _ = 0

abbrev pub put : Table → ℕ → ℕ → Table
put t i v = λ j. if j == i then v else t j

-- `(h + i) & (kTextPcSetN - 1)` for `h = (pc * 2654435761u) & (kTextPcSetN - 1)`
unfoldable pub slot : ℕ → ℕ → ℕ
slot pc i = (pc * 2654435761 % 2 ^ 32 % slots + i) % slots

-- The loop with `left` rounds to go, at round `i`.
unfoldable pub contains_loop : Table → ℕ → ℕ → ℕ → Bool
contains_loop t pc zero i = false
contains_loop t pc (suc left) i =
    let rest = contains_loop t pc left (i + 1) in
    let v = t (slot pc i) in if v == pc then true else if v == 0 then false else rest

unfoldable pub textpc_contains : Table → ℕ → Bool
textpc_contains t pc = contains_loop t pc slots 0

-- With no other thread the compare-and-exchange on an empty slot succeeds.
unfoldable pub add_loop : Table → ℕ → ℕ → ℕ → Table
add_loop t pc zero i = t
add_loop t pc (suc left) i =
    let rest = add_loop t pc left (i + 1) in
    let v = t (slot pc i) in if v == pc then t else if v == 0 then put t (slot pc i) pc else rest

unfoldable pub textpc_add : Table → ℕ → Table
textpc_add t pc = if pc == 0 then t else add_loop t pc slots 0
