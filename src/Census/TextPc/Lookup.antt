-- ===== src/Census/TextPc/Lookup.antt =====
-- Membership in the set of text-draw PCs.
use pocket_monsters_stadium.Prelude.{
  ℕ, zero, suc, ◌+◌, ◌-◌, ◌*◌, ◌%◌, ◌^◌, ◌≤◌, ◌<◌, ◌≡◌, ◌≢◌, ◌↔◌, inl, inr, refl, sym, ap, ◌∙◌,
  true, arith, ◌==◌, Bool-cases,
}
use pocket_monsters_stadium.Census.TextPc.{
  Table, slots, empty, slot, contains_loop, textpc_contains,
}

pub slot-lt : (pc i : ℕ) → slot pc i < slots
unfolding slot
slot-lt pc i = omega arith

-- The probe sequence visits every slot within `slots` rounds.
pub slot-covers : (pc j : ℕ) → j < slots → (i : ℕ) × (i < slots) × (slot pc i ≡ j)
unfolding slot
slot-covers pc j h =
    let home = pc * 2654435761 % 2 ^ 32 % slots in
    ((j + slots - home) % slots, omega arith, omega arith)

-- The PC stands in some slot.
abbrev pub Has : Table → ℕ → Type 0
Has t pc = (j : ℕ) × (j < slots) × (t j ≡ pc)

-- Every slot of the probe sequence of `pc` before round `n` is taken.
abbrev pub TakenBefore : Table → ℕ → ℕ → Type 0
TakenBefore t pc n = (i : ℕ) → i < n → t (slot pc i) ≢ 0

-- Each stored PC is reached from its home slot without crossing an empty slot.
abbrev pub IsProbed : Table → Type 0
IsProbed t =
    (j : ℕ)
    → j < slots
    → t j ≢ 0
    → (k : ℕ) × (k < slots) × (slot (t j) k ≡ j) × TakenBefore t (t j) k

pub empty-IsProbed : IsProbed empty
empty-IsProbed j h ne = absurd (ne refl)

module _ (t : Table) (pc : ℕ) where
  contains_loop_sound : (n i : ℕ) → contains_loop t pc n i ≡ true → Has t pc
  unfolding contains_loop
  contains_loop_sound zero i h = cc
  contains_loop_sound (suc n) i h = elim (Bool-cases (t (slot pc i) == pc)) [
    | inl e ↦ (slot pc i, slot-lt pc i, ground arith)
    | inr e ↦ contains_loop_sound n (i + 1) (ground arith)
  ]

  contains_loop_complete :
      (n i k : ℕ)
      → t (slot pc k) ≡ pc
      → TakenBefore t pc k
      → i ≤ k
      → k < i + n
      → contains_loop t pc n i ≡ true
  unfolding contains_loop
  contains_loop_complete zero i k e free lo hi = absurd (omega arith)
  contains_loop_complete (suc n) i k e free lo hi = elim (Bool-cases (i == k)) [
    | inl same ↦ let p : i ≡ k = ground arith in rw p (ground arith)
    | inr less ↦
        let lt : i < k = ground arith in
        let ih = contains_loop_complete n (i + 1) k e free (omega arith) (omega arith) in
        let ne = free i lt in ground arith
  ]

-- In a table in which each stored PC is reached without crossing an empty slot, a lookup succeeds
-- exactly for the PCs other than 0 that stand in some slot.
pub textpc_contains_iff :
    (t : Table) (pc : ℕ) → IsProbed t → pc ≢ 0 → (textpc_contains t pc ≡ true) ↔ Has t pc
unfolding textpc_contains
textpc_contains_iff t pc probed nz = (
  contains_loop_sound t pc slots 0,
  λ (j, lt, e).
      let (k, hk, at, taken) = probed j lt (λ z. nz (sym e ∙ z)) in
      contains_loop_complete t pc slots 0 k (ap t (ap (λ q. slot q k) (sym e) ∙ at) ∙ e)
        (λ i less z. taken i less (ap t (ap (λ q. slot q i) e) ∙ z)) (omega arith) (omega arith),
)
