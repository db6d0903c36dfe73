-- ===== src/Audio/Decimate.antt =====
-- The thinning of a runaway audio queue (`queue_samples` of src/main/main.cpp) works in place.
use pocket_monsters_stadium.Prelude.{
  ℕ, zero, suc, ◌+◌, ◌*◌, ◌≤◌, ◌<◌, ◌≡◌, ◌≢◌, refl, ◌∙◌, arith, ◌==◌, false, Bool-cases, inl, inr,
}
use pocket_monsters_stadium.Audio.{write, decimate}

module _ {A : Type 0} (ratio : ℕ) (o : ℕ → A) where
  -- The buffer after one frame.
  abbrev moved : (ℕ → A) → ℕ → ℕ → A
  moved b i =
      let b' = write b (2 * i) (b (2 * (ratio * i))) in
      write b' (2 * i + 1) (b' (2 * (ratio * i) + 1))

  moved_other : (b : ℕ → A) (i k : ℕ) → k ≢ 2 * i → k ≢ 2 * i + 1 → moved b i k ≡ b k
  moved_other b i k p q = ground arith

  moved_left : (b : ℕ → A) (i : ℕ) → moved b i (2 * i) ≡ b (2 * (ratio * i))
  moved_left b i = ground arith

  moved_right : (b : ℕ → A) (i : ℕ) → moved b i (2 * i + 1) ≡ b (2 * (ratio * i) + 1)
  moved_right b i =
      let odd : (2 * (ratio * i) + 1 == 2 * i) ≡ false = ground arith in ground (arith, odd)

  -- The frames before `i` stay.
  decimate_before : (n i : ℕ) (b : ℕ → A) (k : ℕ) → k < 2 * i → decimate ratio i n b k ≡ b k
  unfolding decimate
  decimate_before zero i b k h = refl
  decimate_before (suc n) i b k h =
      decimate_before n (i + 1) (moved b i) k (omega arith)
      ∙ moved_other b i k (λ e. absurd (omega arith)) (λ e. absurd (omega arith))

  abbrev Agrees : (ℕ → A) → ℕ → Type 0
  Agrees b i = (k : ℕ) → 2 * i ≤ k → b k ≡ o k

  moved-Agrees : (b : ℕ → A) (i : ℕ) → Agrees b i → Agrees (moved b i) (i + 1)
  moved-Agrees b i h k le =
      moved_other b i k (λ e. absurd (omega arith)) (λ e. absurd (omega arith)) ∙ h k (omega arith)

  ahead : (i : ℕ) → 0 < ratio → i ≤ ratio * i
  ahead i h = grind arith

  decimate_from :
      (n i : ℕ) (b : ℕ → A) (j : ℕ)
      → 0 < ratio
      → Agrees b i
      → i ≤ j
      → j < i + n
      → (decimate ratio i n b (2 * j) ≡ o (2 * (ratio * j)))
        × (decimate ratio i n b (2 * j + 1) ≡ o (2 * (ratio * j) + 1))
  unfolding decimate
  decimate_from zero i b j pos h lo hi = absurd (omega arith)
  decimate_from (suc n) i b j pos h lo hi = elim (Bool-cases (i == j)) [
    | inl e ↦
        let p : j ≡ i = ground arith in
        let le : i ≤ ratio * i = ahead i pos in
        rw p (
          decimate_before n (i + 1) (moved b i) (2 * i) (omega arith)
              ∙ moved_left b i
              ∙ h (2 * (ratio * i)) (omega arith),
          decimate_before n (i + 1) (moved b i) (2 * i + 1) (omega arith)
              ∙ moved_right b i
              ∙ h (2 * (ratio * i) + 1) (omega arith),
        )
    | inr e ↦
        let lt : i < j = ground arith in
        decimate_from n (i + 1) (moved b i) j pos (moved-Agrees b i h) (omega arith) (omega arith)
  ]

-- The loop that thins the queue reads ahead of what it writes: each of the first `n` frames becomes, in
-- both channels, the frame `ratio` times as far in the buffer as it was before, for any positive ratio.
pub decimate_lem :
    {A : Type 0} (ratio n j : ℕ) (o : ℕ → A)
    → 0 < ratio
    → j < n
    → (decimate ratio 0 n o (2 * j) ≡ o (2 * (ratio * j)))
      × (decimate ratio 0 n o (2 * j + 1) ≡ o (2 * (ratio * j) + 1))
decimate_lem ratio n j o pos h =
    decimate_from ratio o n 0 o j pos (λ k le. refl) (omega arith) (omega arith)
