-- ===== src/Census/Slots.antt =====
-- Fixed tables of slots that are either unused or hold an entry under a key, and the searches through
-- them that the inventory and the census of src/main/diagnostics.cpp make.
use pocket_monsters_stadium.Prelude.{
  ℕ, zero, suc, ◌≡◌, ◌≢◌, refl, sym, ◌∙◌, true, false, List, [], ◌∷◌, Option, none, some, arith,
  ◌==◌, if◌then◌else◌, set, inl, inr, Bool-cases,
}

-- One slot further on.
unfoldable pub further : Option ℕ → Option ℕ
further none = none
further (some i) = some (suc i)

-- The index of the first unused slot.
unfoldable pub find_free {ℓ} : {A : Type ℓ} → List (Option A) → Option ℕ
find_free [] = none
find_free (none ∷ xs) = some 0
find_free (some a ∷ xs) = further (find_free xs)

-- The entry in slot `i`, if that is used.
unfoldable pub entry_at {ℓ} : {A : Type ℓ} → List (Option A) → ℕ → Option A
entry_at [] i = none
entry_at (x ∷ xs) zero = x
entry_at (x ∷ xs) (suc i) = entry_at xs i

module _ {ℓ} {A : Type ℓ} (key : A → ℕ) where
  -- The index of the first used slot with the key.
  unfoldable pub find_used : ℕ → List (Option A) → Option ℕ
  find_used k [] = none
  find_used k (none ∷ xs) = further (find_used k xs)
  find_used k (some a ∷ xs) =
      let rest = further (find_used k xs) in if key a == k then some 0 else rest

  -- The entry that is seen under the key: that of the first such slot.
  unfoldable pub lookup : ℕ → List (Option A) → Option A
  lookup k [] = none
  lookup k (none ∷ xs) = lookup k xs
  lookup k (some a ∷ xs) = let rest = lookup k xs in if key a == k then some a else rest

  -- Where a search succeeded, the slot holds an entry with the key; where it failed, there is none.
  abbrev pub Found : ℕ → List (Option A) → Option ℕ → Type ℓ
  Found k xs none = lookup k xs ≡ none
  Found k xs (some i) =
      (a : A) × (entry_at xs i ≡ some a)
      × (lookup k xs ≡ some a)
      × (key a ≡ k)
      × ((b : A) (j : ℕ)
          → key b ≡ k
          → lookup j (set xs i (some b)) ≡ (if j == k then some b else lookup j xs))

  lookup_here : (k : ℕ) (a : A) (xs : List (Option A)) → key a ≡ k → lookup k (some a ∷ xs) ≡ some a
  unfolding lookup
  lookup_here k a xs e = let t : (key a == k) ≡ true = ground arith in rw t

  lookup_past :
      (k : ℕ) (a : A) (xs : List (Option A)) → key a ≢ k → lookup k (some a ∷ xs) ≡ lookup k xs
  unfolding lookup
  lookup_past k a xs ne = let t : (key a == k) ≡ false = ground arith in rw t

  -- The two tests of an update, one of which passes at most.
  put_past :
      (k j : ℕ) (a b : A) (xs ys : List (Option A))
      → key a ≢ k
      → lookup j ys ≡ (if j == k then some b else lookup j xs)
      → lookup j (some a ∷ ys) ≡ (if j == k then some b else lookup j (some a ∷ xs))
  put_past k j a b xs ys ne h = elim (Bool-cases (j == k)) [
    | inl e ↦
        let p : j ≡ k = ground arith in rw e (lookup_past j a ys (λ z. ne (z ∙ p)) ∙ rw e at h)
    | inr e ↦ elim (Bool-cases (key a == j)) [
      | inl t ↦ rw e (lookup_here j a ys (ground arith) ∙ sym (lookup_here j a xs (ground arith)))
      | inr f ↦
          rw e (
            lookup_past j a ys (ground arith) ∙ rw e at h ∙ sym (lookup_past j a xs (ground arith)))
    ]
  ]

  put_here :
      (k j : ℕ) (a b : A) (xs : List (Option A))
      → key a ≡ k
      → key b ≡ k
      → lookup j (some b ∷ xs) ≡ (if j == k then some b else lookup j (some a ∷ xs))
  put_here k j a b xs ka kb = elim (Bool-cases (j == k)) [
    | inl e ↦ rw e (lookup_here j b xs (ground arith))
    | inr e ↦ rw e (lookup_past j b xs (ground arith) ∙ sym (lookup_past j a xs (ground arith)))
  ]

  put_first :
      (k j : ℕ) (b : A) (xs : List (Option A))
      → key b ≡ k
      → lookup j (some b ∷ xs) ≡ (if j == k then some b else lookup j xs)
  put_first k j b xs kb = elim (Bool-cases (j == k)) [
    | inl e ↦ rw e (lookup_here j b xs (ground arith))
    | inr e ↦ rw e (lookup_past j b xs (ground arith))
  ]

  further-Found :
      (k : ℕ) (a : A) (xs : List (Option A)) (o : Option ℕ)
      → key a ≢ k
      → Found k xs o
      → Found k (some a ∷ xs) (further o)
  unfolding further entry_at
  further-Found k a xs none ne f = lookup_past k a xs ne ∙ f
  further-Found k a xs (some i) ne (b, at, seen, kb, put) = (
    b,
    at,
    lookup_past k a xs ne ∙ seen,
    kb,
    λ c j kc. put_past k j a c xs (set xs i (some c)) ne (put c j kc),
  )

  further_unused :
      (k : ℕ) (xs : List (Option A)) (o : Option ℕ) → Found k xs o → Found k (none ∷ xs) (further o)
  unfolding further lookup entry_at
  further_unused k xs none f = f
  further_unused k xs (some i) f = f

  pub find_used-Found : (k : ℕ) (xs : List (Option A)) → Found k xs (find_used k xs)
  unfolding find_used lookup entry_at
  find_used-Found k [] = refl
  find_used-Found k (none ∷ xs) = further_unused k xs (find_used k xs) (find_used-Found k xs)
  find_used-Found k (some a ∷ xs) = elim (Bool-cases (key a == k)) [
    | inl e ↦
        let p : key a ≡ k = ground arith in
        rw e (a, refl, lookup_here k a xs p, p, λ b j kb. put_here k j a b xs p kb)
    | inr e ↦ rw e (further-Found k a xs (find_used k xs) (ground arith) (find_used-Found k xs))
  ]

  -- A new key put into the first unused slot is seen, and every other key as before.
  abbrev pub Room : ℕ → List (Option A) → Option ℕ → Type ℓ
  Room k xs none = Unit
  Room k xs (some i) =
      (b : A) (j : ℕ)
      → key b ≡ k
      → lookup j (set xs i (some b)) ≡ (if j == k then some b else lookup j xs)

  further-Room :
      (k : ℕ) (a : A) (xs : List (Option A)) (o : Option ℕ)
      → key a ≢ k
      → Room k xs o
      → Room k (some a ∷ xs) (further o)
  unfolding further
  further-Room k a xs none ne r = tt
  further-Room k a xs (some i) ne r =
      λ b j kb. put_past k j a b xs (set xs i (some b)) ne (r b j kb)

  past_of_none :
      (k : ℕ) (a : A) (xs : List (Option A))
      → lookup k (some a ∷ xs) ≡ none
      → (key a ≢ k) × (lookup k xs ≡ none)
  past_of_none k a xs h = elim (Bool-cases (key a == k)) [
    | inl e ↦ absurd (some≢none a (sym (lookup_here k a xs (ground arith)) ∙ h))
    | inr e ↦ let ne : key a ≢ k = ground arith in (ne, sym (lookup_past k a xs ne) ∙ h)
  ]
    where
      some≢none : (x : A) → some x ≢ none
      some≢none x e = cc

  pub find_free-Room :
      (k : ℕ) (xs : List (Option A)) → lookup k xs ≡ none → Room k xs (find_free xs)
  unfolding find_free lookup
  find_free-Room k [] h = tt
  find_free-Room k (none ∷ xs) h = λ b j kb. put_first k j b xs kb
  find_free-Room k (some a ∷ xs) h =
      let (ne, rest) = past_of_none k a xs h in
      further-Room k a xs (find_free xs) ne (find_free-Room k xs rest)
