-- ===== src/Census/Ranking/Sorted.antt =====
-- The ranking is a permutation in descending order of count.
use mathlib.Core.List.{Perm}
use mathlib.Core.List.Perm
use native.Mathlib.Nat.{le_refl, le_trans}
use pocket_monsters_stadium.Prelude.{
  ℕ, zero, suc, ◌+◌, ◌≤◌, ◌<◌, ◌≡◌, List, [], ◌∷◌, ltb, length, get_or, refl, ◌∙◌, ap, set, arith,
  length-set, Bool-cases, inl, inr,
}
use pocket_monsters_stadium.Census.Ranking.{best_from, swap_first, rank_rounds, rank}

abbrev pub All {ℓ κ} : {A : Type ℓ} → (A → Type κ) → List A → Type κ
All P [] = Unit
All P (x ∷ xs) = P x × All P xs

All-set {κ} : (P : ℕ → Type κ) (xs : List ℕ) (m x : ℕ) → P x → All P xs → All P (set xs m x)
All-set P [] m x h a = a
All-set P (y ∷ ys) zero x h (_, a) = (h, a)
All-set P (y ∷ ys) (suc m) x h (b, a) = (b, All-set P ys m x h a)

module _ (count : ℕ → ℕ) where
  -- In descending order of count.
  abbrev pub IsRanked : List ℕ → Type 0
  IsRanked [] = Unit {0}
  IsRanked (x ∷ xs) = All (λ y. count y ≤ count x) xs × IsRanked xs

  abbrev weight : List ℕ → ℕ → ℕ
  weight order i = count (get_or order i 0)

  -- What the inner loop has established.
  record IsBest (order rest : List ℕ) (best b : ℕ) : Type 0 where
    inside : b < length order
    not_below : weight order best ≤ weight order b
    above : All (λ y. count y ≤ weight order b) rest

  best_from-IsBest :
      (order rest : List ℕ) (j best : ℕ)
      → ((i : ℕ) → i < length rest → get_or order (j + i) 0 ≡ get_or rest i 0)
      → j + length rest ≡ length order
      → best < length order
      → IsBest order rest best (best_from count order rest j best)
  unfolding best_from
  best_from-IsBest order [] j best same end lt = record {
    inside = lt;
    not_below = le_refl _;
    above = tt;
  }
  best_from-IsBest order (x ∷ xs) j best same end lt =
      elim (Bool-cases (ltb (weight order best) (weight order j))) [
        | inl more ↦
            let ih = best_from-IsBest order xs (j + 1) j later (omega arith) (omega arith) in
            rw more (record {
              inside = ih.inside;
              not_below = le_trans (ground arith) ih.not_below;
              above = (rw here at ih.not_below, ih.above);
            })
        | inr less ↦
            let ih = best_from-IsBest order xs (j + 1) best later (omega arith) lt in
            let le : weight order j ≤ weight order best = ground arith in
            rw less (record {
              inside = ih.inside;
              not_below = ih.not_below;
              above = (rw here at (le_trans le ih.not_below), ih.above);
            })
      ]
    where
      here : get_or order j 0 ≡ x
      here = ap (λ k. get_or order k 0) (omega arith) ∙ same 0 (omega arith)

      later : (i : ℕ) → i < length xs → get_or order (j + 1 + i) 0 ≡ get_or xs i 0
      later i hi = ap (λ k. get_or order k 0) (omega arith) ∙ same (suc i) (omega arith)

-- The exchange brings the chosen element to the front and loses none.
swap_first-value : (x : ℕ) (xs : List ℕ) (b : ℕ) → (swap_first x xs b).0 ≡ get_or (x ∷ xs) b 0
unfolding swap_first
swap_first-value x xs zero = refl
swap_first-value x xs (suc m) = refl

swap_first-All :
    (P : ℕ → Type 0) (x : ℕ) (xs : List ℕ) (b : ℕ) → P x → All P xs → All P (swap_first x xs b).1
unfolding swap_first
swap_first-All P x xs zero h a = a
swap_first-All P x xs (suc m) h a = All-set P xs m x h a

swap_first-length : (x : ℕ) (xs : List ℕ) (b : ℕ) → length (swap_first x xs b).1 ≡ length xs
unfolding swap_first
swap_first-length x xs zero = refl
swap_first-length x xs (suc m) = length-set xs m x

exchange-perm : (xs : List ℕ) (m x : ℕ) → m < length xs → Perm (get_or xs m 0 ∷ set xs m x) (x ∷ xs)
exchange-perm [] m x h = absurd (omega arith)
exchange-perm (y ∷ ys) zero x h = Perm.swap _ _ _
exchange-perm (y ∷ ys) (suc m) x h =
    Perm.trans (Perm.swap _ _ _)
      (Perm.trans (Perm.cons y (exchange-perm ys m x (omega arith))) (Perm.swap _ _ _))

swap_first-perm :
    (x : ℕ) (xs : List ℕ) (b : ℕ)
    → b < suc (length xs)
    → Perm ((swap_first x xs b).0 ∷ (swap_first x xs b).1) (x ∷ xs)
unfolding swap_first
swap_first-perm x xs zero h = Perm.refl _
swap_first-perm x xs (suc m) h = exchange-perm xs m x (omega arith)

All-get_or : (P : ℕ → Type 0) (xs : List ℕ) (i : ℕ) → i < length xs → All P xs → P (get_or xs i 0)
All-get_or P [] i h a = absurd (omega arith)
All-get_or P (x ∷ xs) zero h (p, a) = p
All-get_or P (x ∷ xs) (suc i) h (p, a) = All-get_or P xs i (omega arith) a

All-map : (P Q : ℕ → Type 0) (xs : List ℕ) → ((x : ℕ) → P x → Q x) → All P xs → All Q xs
All-map P Q [] f a = tt
All-map P Q (x ∷ xs) f (p, a) = (f x p, All-map P Q xs f a)

module _ (count : ℕ → ℕ) where
  -- One round, on a non-empty list: what is chosen is nowhere exceeded.
  chosen-IsBest :
      (x : ℕ) (xs : List ℕ) → IsBest count (x ∷ xs) xs 0 (best_from count (x ∷ xs) xs 1 0)
  chosen-IsBest x xs =
      best_from-IsBest count (x ∷ xs) xs 1 0 (λ i h. ap (λ k. get_or (x ∷ xs) k 0) one_more ∙ refl)
        (omega arith) (omega arith)
    where
      one_more : {i : ℕ} → 1 + i ≡ suc i
      one_more {i} = omega arith

  rank_rounds-All :
      (P : ℕ → Type 0) (n : ℕ) (xs : List ℕ) → All P xs → All P (rank_rounds count n xs)
  unfolding rank_rounds
  rank_rounds-All P zero xs a = a
  rank_rounds-All P (suc n) [] a = tt
  rank_rounds-All P (suc n) (x ∷ xs) (p, a) =
      let b = best_from count (x ∷ xs) xs 1 0 in
      let h = (chosen-IsBest x xs).inside in
      (
        rw (swap_first-value x xs b) (All-get_or P (x ∷ xs) b h (p, a)),
        rank_rounds-All P n (swap_first x xs b).1 (swap_first-All P x xs b p a),
      )

  rank_rounds-IsRanked :
      (n : ℕ) (xs : List ℕ) → length xs ≤ n → IsRanked count (rank_rounds count n xs)
  unfolding rank_rounds
  rank_rounds-IsRanked zero [] h = tt
  rank_rounds-IsRanked zero (x ∷ xs) h = absurd (omega arith)
  rank_rounds-IsRanked (suc n) [] h = tt
  rank_rounds-IsRanked (suc n) (x ∷ xs) h =
      let b = best_from count (x ∷ xs) xs 1 0 in
      let best = chosen-IsBest x xs in
      let top = swap_first-value x xs b in
      (
        rank_rounds-All (λ y. count y ≤ count (swap_first x xs b).0) n (swap_first x xs b).1
            (rw top (
              swap_first-All (λ y. count y ≤ count (get_or (x ∷ xs) b 0)) x xs b best.not_below
                best.above)),
        rank_rounds-IsRanked n (swap_first x xs b).1 (omega (arith, swap_first-length x xs b)),
      )

  rank_rounds-perm : (n : ℕ) (xs : List ℕ) → Perm (rank_rounds count n xs) xs
  unfolding rank_rounds
  rank_rounds-perm zero xs = Perm.refl xs
  rank_rounds-perm (suc n) [] = Perm.refl []
  rank_rounds-perm (suc n) (x ∷ xs) =
      let b = best_from count (x ∷ xs) xs 1 0 in
      Perm.trans (Perm.cons _ (rank_rounds-perm n (swap_first x xs b).1))
        (swap_first-perm x xs b (chosen-IsBest x xs).inside)

  -- The ranking of a list of indices is a permutation of it, in descending order of count.
  pub rank-IsRanked : (xs : List ℕ) → IsRanked count (rank count xs) × Perm (rank count xs) xs
  unfolding rank
  rank-IsRanked xs =
      (rank_rounds-IsRanked (length xs) xs (omega arith), rank_rounds-perm (length xs) xs)
