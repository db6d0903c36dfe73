-- ===== src/Census/Ranking.antt =====
-- The ranking by call count in the dumps of src/main/diagnostics.cpp: a selection sort of the indices
-- of the used slots.
pub mod Sorted
pub mod Used
use mathlib.Core.List.{Perm}
use pocket_monsters_stadium.Prelude.{
  ℕ, zero, suc, ◌+◌, ◌≤◌, ◌<◌, ◌≡◌, Bool, List, [], ◌∷◌, Option, none, some, ltb, if◌then◌else◌,
  length, get_or, set, arith,
}

-- `for (i) if (used) order[n++] = i;` from index `i`
unfoldable pub used_from {ℓ} : {A : Type ℓ} → List (Option A) → ℕ → List ℕ
used_from [] i = []
used_from (none ∷ xs) i = used_from xs (i + 1)
used_from (some a ∷ xs) i = i ∷ used_from xs (i + 1)

-- The positions from `i` on, once the best of them has been exchanged with the first.
unfoldable pub swap_first : ℕ → List ℕ → ℕ → ℕ × List ℕ
swap_first x xs zero = (x, xs)
swap_first x xs (suc m) = (get_or xs m 0, set xs m x)

module _ (count : ℕ → ℕ) where
  -- The inner loop over the rest of the order from position `j`, with the best position so far.
  unfoldable pub best_from : List ℕ → List ℕ → ℕ → ℕ → ℕ
  best_from order [] j best = best
  best_from order (x ∷ xs) j best =
      best_from order xs (j + 1)
        (if ltb (count (get_or order best 0)) (count (get_or order j 0)) then j else best)

  -- The outer loop with that many rounds to go, on the positions that are not yet settled.
  unfoldable pub rank_rounds : ℕ → List ℕ → List ℕ
  rank_rounds zero xs = xs
  rank_rounds (suc n) [] = []
  rank_rounds (suc n) (x ∷ xs) =
      let (y, ys) = swap_first x xs (best_from (x ∷ xs) xs 1 0) in y ∷ rank_rounds n ys

  unfoldable pub rank : List ℕ → List ℕ
  unfolding best_from swap_first rank_rounds
  rank xs = rank_rounds (length xs) xs
