-- ===== src/Tests/Census.antt =====
-- The census at concrete inputs.
use pocket_monsters_stadium.Prelude.{
  ℕ, ◌+◌, ◌*◌, ◌%◌, ◌<◌, ◌≡◌, ◌↔◌, ◌⊎◌, refl, true, false, List, [], ◌∷◌, Option, none, some,
  if◌then◌else◌, arith, codes, replicate,
}
use pocket_monsters_stadium.Census.TextPc.{
  Table, empty, slot, textpc_contains, textpc_add, contains_loop, add_loop,
}
use pocket_monsters_stadium.Census.TextPc.Insert.{textpc_add-Adds}
use pocket_monsters_stadium.Census.TextPc.Lookup.{
  Has, IsProbed, empty-IsProbed, textpc_contains_iff,
}
use pocket_monsters_stadium.Census.TextPc.Interleave.{
  loading, step, System, run_one, here, next, IsSound, stored-found, work, Returned, step-work,
}
use pocket_monsters_stadium.Census.Inventory.{Inventory, strinv_upsert}
use pocket_monsters_stadium.Census.Inventory.Laws.{Upserts, strinv_upsert-Upserts}
use pocket_monsters_stadium.Census.Ranking.{rank, used_from}
use pocket_monsters_stadium.Census.Ranking.Used.{times, is_used, rank-used_from}
use pocket_monsters_stadium.Census.Ranking.Sorted.{IsRanked}

-- The set with two PCs.
abbrev two_pcs : Table
two_pcs = textpc_add (textpc_add empty 0x8001A3E4) 0x80019F70

two_pcs-IsProbed : IsProbed two_pcs
two_pcs-IsProbed =
    let one = textpc_add-Adds empty 0x8001A3E4 empty-IsProbed (omega arith) in
    (textpc_add-Adds (textpc_add empty 0x8001A3E4) 0x80019F70 one.probed (omega arith)).probed

textpc_contains_iff_example : (textpc_contains two_pcs 0x8001A3E4 ≡ true) ↔ Has two_pcs 0x8001A3E4
textpc_contains_iff_example = textpc_contains_iff two_pcs 0x8001A3E4 two_pcs-IsProbed (omega arith)

-- Both PCs are found, and another is not.
two_pcs_run :
    (textpc_contains two_pcs 0x8001A3E4 ≡ true)
    × (textpc_contains two_pcs 0x80019F70 ≡ true)
    × (textpc_contains two_pcs 0x80055CE0 ≡ false)
unfolding textpc_contains textpc_add contains_loop add_loop slot
two_pcs_run = (refl, refl, refl)

-- Every thread is about to add the same PC to the empty table.
abbrev racing : System
racing = record { table = empty; threads = λ n. loading 0x8001A3E4 0 }

racing-IsSound : IsSound racing
racing-IsSound = record {
  probed = empty-IsProbed;
  knows = λ n. (omega arith, omega arith, λ i h. absurd (omega arith));
}

-- Threads 0 and 1 see the empty slot, thread 0 takes it, thread 1 fails to and looks again.
abbrev taken : System
taken = run_one (run_one (run_one racing 0) 1) 0

abbrev settled : System
settled = run_one (run_one taken 1) 1

stored_example : textpc_contains settled.table 0x8001A3E4 ≡ true
unfolding run_one step slot
stored_example =
    stored-found 0 0x8001A3E4 racing-IsSound (next 0 (next 1 (next 0 here))) refl
      (next 1 (next 1 here))

step-work_example :
    Returned (loading 0x8001A3E4 0)
    ⊎ (work (step empty (loading 0x8001A3E4 0)).1 < work (loading 0x8001A3E4 0))
step-work_example =
    step-work empty (loading 0x8001A3E4 0) (omega arith, omega arith, λ i h. absurd (omega arith))

abbrev small_inventory : Inventory
small_inventory = record { slots = replicate 4 none; dropped = 0 }

upsert_example :
    Upserts small_inventory
      (codes "Flame")
      10
      20
      (strinv_upsert small_inventory (codes "Flame") 10 20)
upsert_example = strinv_upsert-Upserts small_inventory b'F' (codes "lame") 10 20

abbrev calls : ℕ → ℕ
calls i = (i * 7 + 3) % 5

-- The first slot, the third and the sixth are used.
abbrev table : List (Option ℕ)
table = some 7 ∷ none ∷ some 8 ∷ none ∷ none ∷ some 9 ∷ []

rank_example :
    IsRanked calls (rank calls (used_from table 0))
    × (times 2 (rank calls (used_from table 0)) ≡ (if is_used table 2 then 1 else 0))
rank_example = rank-used_from calls table 2

rank_run : rank calls (used_from table 0) ≡ 0 ∷ 5 ∷ 2 ∷ []
unfolding rank used_from
rank_run = refl
