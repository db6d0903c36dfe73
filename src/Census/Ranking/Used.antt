-- ===== src/Census/Ranking/Used.antt =====
-- The order in which the dumps of src/main/diagnostics.cpp list a table of slots.
use mathlib.Core.List.{Perm, foldr}
use mathlib.Core.List.Perm
use native.Mathlib.Nat.{ℕ_set}
use pocket_monsters_stadium.Prelude.{
  ℕ, zero, suc, ◌+◌, ◌<◌, ◌≡◌, refl, sym, ap, ◌∙◌, Bool, true, false, List, [], ◌∷◌, Option, none,
  some, ◌==◌, if◌then◌else◌, arith,
}
use pocket_monsters_stadium.Census.Ranking.{used_from, rank}
use pocket_monsters_stadium.Census.Ranking.Sorted.{IsRanked, rank-IsRanked}

-- How often an index stands in a list.
abbrev pub times : ℕ → List ℕ → ℕ
times i [] = 0
times i (x ∷ xs) = (if x == i then 1 else 0) + times i xs

step : ℕ → ℕ → ℕ → ℕ
step i x n = (if x == i then 1 else 0) + n

times-foldr : (i : ℕ) (xs : List ℕ) → times i xs ≡ foldr (step i) 0 xs
unfolding step
times-foldr i [] = refl
times-foldr i (x ∷ xs) = ap ((if x == i then 1 else 0) +◌) (times-foldr i xs)

step_comm : (i a b n : ℕ) → step i a (step i b n) ≡ step i b (step i a n)
unfolding step
step_comm i a b n = omega arith

times-perm : {xs ys : List ℕ} (i : ℕ) → Perm xs ys → times i xs ≡ times i ys
times-perm {xs} {ys} i p =
    times-foldr i xs
    ∙ Perm.foldr-eq ℕ_set (step i) (step_comm i) {l₁ = xs} {l₂ = ys} p 0
    ∙ sym (times-foldr i ys)

module _ {ℓ} {A : Type ℓ} where
  -- Whether the slot is used.
  abbrev pub is_used : List (Option A) → ℕ → Bool
  is_used [] i = false
  is_used (none ∷ xs) zero = false
  is_used (some a ∷ xs) zero = true
  is_used (x ∷ xs) (suc i) = is_used xs i

  times-used_from_before : (xs : List (Option A)) (j i : ℕ) → i < j → times i (used_from xs j) ≡ 0
  unfolding used_from
  times-used_from_before [] j i h = refl
  times-used_from_before (none ∷ xs) j i h = times-used_from_before xs (j + 1) i (omega arith)
  times-used_from_before (some a ∷ xs) j i h =
      let rest = times-used_from_before xs (j + 1) i (omega arith) in ground (arith, rest)

  times-used_from :
      (xs : List (Option A)) (j k i : ℕ)
      → i ≡ j + k
      → times i (used_from xs j) ≡ (if is_used xs k then 1 else 0)
  unfolding used_from
  times-used_from [] j k i h = refl
  times-used_from (none ∷ xs) j zero i h = times-used_from_before xs (j + 1) i (omega arith)
  times-used_from (some a ∷ xs) j zero i h =
      let rest = times-used_from_before xs (j + 1) i (omega arith) in ground (arith, rest)
  times-used_from (none ∷ xs) j (suc k) i h = times-used_from xs (j + 1) k i (omega arith)
  times-used_from (some a ∷ xs) j (suc k) i h =
      let rest = times-used_from xs (j + 1) k i (omega arith) in ground (arith, rest)

  -- The order of the dump of a table lists the index of every used slot once and no other index, in
  -- descending order of count.
  pub rank-used_from :
      (count : ℕ → ℕ) (xs : List (Option A)) (i : ℕ)
      → IsRanked count (rank count (used_from xs 0))
        × (times i (rank count (used_from xs 0)) ≡ (if is_used xs i then 1 else 0))
  rank-used_from count xs i =
      let (ranked, perm) = rank-IsRanked count (used_from xs 0) in
      (ranked, times-perm i perm ∙ times-used_from xs 0 i i (omega arith))
