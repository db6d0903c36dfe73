-- ===== src/Census/TextPc/Insert.antt =====
-- Adding to the set of text-draw PCs.
use pocket_monsters_stadium.Prelude.{
  ℕ, zero, suc, ◌+◌, ◌<◌, ◌≡◌, ◌≢◌, ◌⊎◌, inl, inr, refl, sym, ap, ◌∙◌, true, false, arith, ◌==◌,
  if◌then◌else◌, Bool-cases, Bool_ext,
}
use pocket_monsters_stadium.Census.TextPc.Lookup.{
  slot-lt, slot-covers, Has, TakenBefore, IsProbed, textpc_contains_iff,
}
use pocket_monsters_stadium.Census.TextPc.{
  Table, slots, put, slot, textpc_contains, add_loop, textpc_add,
}

-- A table in which taken slots keep their values.
abbrev pub Grows : Table → Table → Type 0
Grows t u = (j : ℕ) → t j ≢ 0 → u j ≡ t j

-- Every slot is taken.
abbrev pub IsFull : Table → Type 0
IsFull t = (j : ℕ) → j < slots → t j ≢ 0

pub put-Grows : (t : Table) (j v : ℕ) → t j ≡ 0 → Grows t (put t j v)
put-Grows t j v e i ne = ground arith

pub Grows-ne_zero : (t u : Table) → Grows t u → (j : ℕ) → t j ≢ 0 → u j ≢ 0
Grows-ne_zero t u g j ne z = ne (sym (g j ne) ∙ z)

-- A PC put into the first empty slot of its probe sequence keeps the table probed.
pub put-IsProbed :
    (t : Table) (pc k : ℕ)
    → IsProbed t
    → pc ≢ 0
    → k < slots
    → t (slot pc k) ≡ 0
    → TakenBefore t pc k
    → IsProbed (put t (slot pc k) pc)
put-IsProbed t pc k probed nz lt free taken j hj ne = elim (Bool-cases (j == slot pc k)) [
  | inl here ↦
      let e : j ≡ slot pc k = ground arith in
      let v : put t (slot pc k) pc j ≡ pc = ground arith in
      (k, lt, rw v (sym e), rw v (λ i hi. Grows-ne_zero t _ grows (slot pc i) (taken i hi)))
  | inr there ↦
      let v : put t (slot pc k) pc j ≡ t j = ground arith in
      let (m, hm, at, before) = probed j hj (λ z. ne (v ∙ z)) in
      (m, hm, rw v at, rw v (λ i hi. Grows-ne_zero t _ grows (slot (t j) i) (before i hi)))
]
  where
    grows : Grows t (put t (slot pc k) pc)
    grows = put-Grows t (slot pc k) pc free

-- What an addition leaves: the table still probed, nothing lost, nothing but `pc` gained, and `pc`
-- in it unless the table is full.
pub record Adds (t : Table) (pc : ℕ) (u : Table) : Type 0 where
  pub probed : IsProbed u
  pub grows : Grows t u
  pub only : (j : ℕ) → (u j ≡ t j) ⊎ ((t j ≡ 0) × (u j ≡ pc))
  pub stored : Has u pc ⊎ IsFull u

pub TakenBefore-suc :
    (t : Table) (pc i : ℕ) → TakenBefore t pc i → t (slot pc i) ≢ 0 → TakenBefore t pc (i + 1)
TakenBefore-suc t pc i before here k lt = elim (Bool-cases (k == i)) [
  | inl e ↦ let p : k ≡ i = ground arith in rw p here
  | inr e ↦ before k (ground arith)
]

pub TakenBefore-IsFull : (t : Table) (pc : ℕ) → TakenBefore t pc slots → IsFull t
TakenBefore-IsFull t pc before j lt z =
    let (i, hi, e) = slot-covers pc j lt in before i hi (ap t e ∙ z)

add_loop-Adds :
    (t : Table) (pc n i : ℕ)
    → IsProbed t
    → pc ≢ 0
    → TakenBefore t pc i
    → i + n ≡ slots
    → Adds t pc (add_loop t pc n i)
unfolding add_loop
add_loop-Adds t pc zero i probed nz before e = record {
  probed = probed;
  grows = λ j ne. refl;
  only = λ j. inl refl;
  stored = inr (TakenBefore-IsFull t pc (λ k lt. before k (omega arith)));
}
add_loop-Adds t pc (suc n) i probed nz before e = elim (Bool-cases (t (slot pc i) == pc)) [
  | inl found ↦ rw found (record {
    probed = probed;
    grows = λ j ne. refl;
    only = λ j. inl refl;
    stored = inl (slot pc i, slot-lt pc i, ground arith);
  })
  | inr other ↦ elim (Bool-cases (t (slot pc i) == 0)) [
    | inl free ↦
        let z : t (slot pc i) ≡ 0 = ground arith in
        rw (other, free)
          (record {
            probed = put-IsProbed t pc i probed nz (omega arith) z before;
            grows = put-Grows t (slot pc i) pc z;
            only = λ j. ground arith;
            stored = inl (slot pc i, slot-lt pc i, ground arith);
          })
    | inr taken ↦
        let ne : t (slot pc i) ≢ 0 = ground arith in
        rw (other, taken)
          (add_loop-Adds t pc n (i + 1) probed nz (TakenBefore-suc t pc i before ne) (omega arith))
  ]
]

-- Adding a PC to a well-formed set.
pub textpc_add-Adds : (t : Table) (pc : ℕ) → IsProbed t → pc ≢ 0 → Adds t pc (textpc_add t pc)
unfolding textpc_add
textpc_add-Adds t pc probed nz =
    let e : (pc == 0) ≡ false = ground arith in
    rw e (add_loop-Adds t pc slots 0 probed nz (λ i h. absurd (omega arith)) (omega arith))

-- After an addition to a well-formed set that does not end up full, membership of any PC other than 0
-- is as before, with the added one in.
pub textpc_contains-textpc_add :
    (t : Table) (pc q : ℕ)
    → IsProbed t
    → pc ≢ 0
    → q ≢ 0
    → ¬ IsFull (textpc_add t pc)
    → textpc_contains (textpc_add t pc) q ≡ (if q == pc then true else textpc_contains t q)
textpc_contains-textpc_add t pc q probed nz nq room =
    let a = textpc_add-Adds t pc probed nz in
    let before = textpc_contains_iff t q probed nq in
    let after = textpc_contains_iff (textpc_add t pc) q a.probed nq in
    elim (Bool-cases (q == pc)) [
      | inl e ↦
          let p : q ≡ pc = ground arith in
          rw e (
            after.1 (elim a.stored [
              | inl (j, lt, h) ↦ (j, lt, h ∙ sym p)
              | inr full ↦ absurd (room full)
            ]))
      | inr e ↦ rw e (
          Bool_ext _ _
            (λ h.
              let (j, lt, v) = after.0 h in
              elim (a.only j) [
                | inl same ↦ before.1 (j, lt, sym same ∙ v)
                | inr (_, new) ↦ absurd (ne_of_test q pc e (sym v ∙ new))
              ])
            (λ h.
              let (j, lt, v) = before.0 h in after.1 (j, lt, a.grows j (λ z. nq (sym v ∙ z)) ∙ v)))
    ]
  where
    ne_of_test : (x y : ℕ) → (x == y) ≡ false → x ≢ y
    ne_of_test x y h = ground arith
