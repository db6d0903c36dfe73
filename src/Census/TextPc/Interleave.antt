-- ===== src/Census/TextPc/Interleave.antt =====
-- The set of text-draw PCs under any interleaving of threads: each atomic load and each
-- compare-and-exchange of `textpc_add` in src/main/diagnostics.cpp is one step.
use pocket_monsters_stadium.Prelude.{
  ℕ, ◌+◌, ◌<◌, ◌≡◌, ◌≢◌, refl, sym, ◌∙◌, inl, inr, ◌⊎◌, arith, true, ◌-◌, ◌*◌, ◌==◌, if◌then◌else◌,
  ltb, Bool-cases,
}
use pocket_monsters_stadium.Census.TextPc.Lookup.{
  slot-lt, Has, TakenBefore, IsProbed, textpc_contains_iff,
}
use pocket_monsters_stadium.Census.TextPc.Insert.{
  Grows, IsFull, put-Grows, Grows-ne_zero, put-IsProbed, TakenBefore-IsFull, TakenBefore-suc,
}
use pocket_monsters_stadium.Census.TextPc.{Table, slots, put, slot, textpc_contains}

-- Where a thread stands within `textpc_add(pc)`, in round `i`.
pub data Thread : Type 0 where
  -- before the load of the slot
  loading : ℕ → ℕ → Thread
  -- an empty slot was seen: before the compare-and-exchange
  swapping : ℕ → ℕ → Thread
  -- the exchange failed: before the second load
  checking : ℕ → ℕ → Thread
  -- returned with the PC in the table
  stored : ℕ → Thread
  -- returned because every slot was probed
  gave_up : ℕ → Thread

-- To the next round, or out of the loop.
abbrev next_round : ℕ → ℕ → Thread
next_round pc i = if ltb (i + 1) slots then loading pc (i + 1) else gave_up pc

-- One atomic access of one thread.
unfoldable pub step : Table → Thread → Table × Thread
step t (loading pc i) =
    let v = t (slot pc i) in
    if v == pc then (t, stored pc) else if v == 0 then (t, swapping pc i) else (t, next_round pc i)
step t (swapping pc i) =
    if t (slot pc i) == 0 then (put t (slot pc i) pc, stored pc) else (t, checking pc i)
step t (checking pc i) = if t (slot pc i) == pc then (t, stored pc) else (t, next_round pc i)
step t (stored pc) = (t, stored pc)
step t (gave_up pc) = (t, gave_up pc)

-- The table and every thread.
pub record System : Type 0 where
  pub table : Table
  pub threads : ℕ → Thread

-- The scheduler lets thread `n` make one access.
unfoldable pub run_one : System → ℕ → System
run_one s n =
    let (t, l) = step s.table (s.threads n) in
    record { table = t; threads = λ m. if m == n then l else s.threads m }

pub data Reach (s : System) : System → Type 0 where
  here : Reach s s
  next : {u : System} (n : ℕ) → Reach s u → Reach s (run_one u n)

-- What a thread knows of the table, whatever the others do.
abbrev pub Knows : Table → Thread → Type 0
Knows t (loading pc i) = (pc ≢ 0) × (i < slots) × TakenBefore t pc i
Knows t (swapping pc i) = (pc ≢ 0) × (i < slots) × TakenBefore t pc i
Knows t (checking pc i) = (pc ≢ 0) × (i < slots) × TakenBefore t pc i × (t (slot pc i) ≢ 0)
Knows t (stored pc) = (pc ≢ 0) × Has t pc
Knows t (gave_up pc) = (pc ≢ 0) × IsFull t

TakenBefore-Grows : (t u : Table) (pc i : ℕ) → Grows t u → TakenBefore t pc i → TakenBefore u pc i
TakenBefore-Grows t u pc i g b k h = Grows-ne_zero t u g (slot pc k) (b k h)

Knows-Grows : (t u : Table) (l : Thread) → Grows t u → Knows t l → Knows u l
Knows-Grows t u (loading pc i) g (nz, lt, b) = (nz, lt, TakenBefore-Grows t u pc i g b)
Knows-Grows t u (swapping pc i) g (nz, lt, b) = (nz, lt, TakenBefore-Grows t u pc i g b)
Knows-Grows t u (checking pc i) g (nz, lt, b, ne) =
    (nz, lt, TakenBefore-Grows t u pc i g b, Grows-ne_zero t u g (slot pc i) ne)
Knows-Grows t u (stored pc) g (nz, (j, lt, e)) = (nz, (j, lt, g j (λ z. nz (sym e ∙ z)) ∙ e))
Knows-Grows t u (gave_up pc) g (nz, full) = (nz, λ j lt. Grows-ne_zero t u g j (full j lt))

-- A step keeps the table probed, loses nothing, and leaves its thread with true knowledge.
pub record Keeps (t : Table) (r : Table × Thread) : Type 0 where
  pub probed : IsProbed r.0
  pub grows : Grows t r.0
  pub knows : Knows r.0 r.1

unchanged : (t : Table) (l : Thread) → IsProbed t → Knows t l → Keeps t (t, l)
unchanged t l probed k = record { probed = probed; grows = λ j ne. refl; knows = k }

next_round-Keeps :
    (t : Table) (pc i : ℕ)
    → IsProbed t
    → pc ≢ 0
    → i < slots
    → TakenBefore t pc i
    → t (slot pc i) ≢ 0
    → Keeps t (t, next_round pc i)
next_round-Keeps t pc i probed nz lt before ne =
    let later = TakenBefore-suc t pc i before ne in
    elim (Bool-cases (ltb (i + 1) slots)) [
      | inl more ↦ rw more (unchanged t (loading pc (i + 1)) probed (nz, ground arith, later))
      | inr last ↦ rw last (
          unchanged t (gave_up pc) probed
            (nz, TakenBefore-IsFull t pc (λ k h. later k (ground arith))))
    ]

step-Keeps : (t : Table) (l : Thread) → IsProbed t → Knows t l → Keeps t (step t l)
unfolding step
step-Keeps t (loading pc i) probed (nz, lt, before) = elim (Bool-cases (t (slot pc i) == pc)) [
  | inl found ↦
      rw found (unchanged t (stored pc) probed (nz, (slot pc i, slot-lt pc i, ground arith)))
  | inr other ↦ elim (Bool-cases (t (slot pc i) == 0)) [
    | inl free ↦ rw (other, free) (unchanged t (swapping pc i) probed (nz, lt, before))
    | inr taken ↦ rw (other, taken) (next_round-Keeps t pc i probed nz lt before (ground arith))
  ]
]
step-Keeps t (swapping pc i) probed (nz, lt, before) = elim (Bool-cases (t (slot pc i) == 0)) [
  | inl free ↦
      let z : t (slot pc i) ≡ 0 = ground arith in
      rw free (record {
        probed = put-IsProbed t pc i probed nz lt z before;
        grows = put-Grows t (slot pc i) pc z;
        knows = (nz, (slot pc i, slot-lt pc i, ground arith));
      })
  | inr taken ↦ rw taken (unchanged t (checking pc i) probed (nz, lt, before, ground arith))
]
step-Keeps t (checking pc i) probed (nz, lt, before, ne) = elim (Bool-cases (t (slot pc i) == pc)) [
  | inl found ↦
      rw found (unchanged t (stored pc) probed (nz, (slot pc i, slot-lt pc i, ground arith)))
  | inr other ↦ rw other (next_round-Keeps t pc i probed nz lt before ne)
]
step-Keeps t (stored pc) probed k = unchanged t (stored pc) probed k
step-Keeps t (gave_up pc) probed k = unchanged t (gave_up pc) probed k

pub record IsSound (s : System) : Type 0 where
  pub probed : IsProbed s.table
  pub knows : (n : ℕ) → Knows s.table (s.threads n)

run_one-IsSound :
    (s : System) (n : ℕ) → IsSound s → IsSound (run_one s n) × Grows s.table (run_one s n).table
unfolding run_one
run_one-IsSound s n v =
    let k = step-Keeps s.table (s.threads n) v.probed (v.knows n) in
    (
      record {
        probed = k.probed;
        knows = λ m. elim (Bool-cases (m == n)) [
          | inl e ↦ rw e k.knows
          | inr e ↦ rw e (Knows-Grows s.table _ (s.threads m) k.grows (v.knows m))
        ];
      },
      k.grows,
    )

-- Under every interleaving the table stays probed, and what each thread knows stays true.
pub Reach-IsSound : {s u : System} → IsSound s → Reach s u → IsSound u
Reach-IsSound v here = v
Reach-IsSound v (next {u} n r) = (run_one-IsSound u n (Reach-IsSound v r)).0

pub Reach-Grows : {s u : System} → IsSound s → Reach s u → Grows s.table u.table
Reach-Grows v here = λ j ne. refl
Reach-Grows {s} v (next {u} n r) =
    let g = Reach-Grows v r in
    let g' = (run_one-IsSound u n (Reach-IsSound v r)).1 in
    λ j ne. g' j (Grows-ne_zero s.table u.table g j ne) ∙ g j ne

-- From a sound start, once a thread's addition has returned with its PC stored, every later lookup of
-- that PC succeeds, whatever the threads do in between.
pub stored-found :
    {s u w : System} (n pc : ℕ)
    → IsSound s
    → Reach s u
    → u.threads n ≡ stored pc
    → Reach u w
    → textpc_contains w.table pc ≡ true
stored-found {u} {w} n pc v r e later =
    let v' = Reach-IsSound v r in
    let (nz, (j, lt, at)) : Knows u.table (stored pc) = rw e at (v'.knows n) in
    (textpc_contains_iff w.table pc (Reach-IsSound v' later).probed nz).1
      (j, lt, Reach-Grows v' later j (λ z. nz (sym at ∙ z)) ∙ at)

-- The accesses that a thread has still to make, at most.
abbrev pub work : Thread → ℕ
work (loading pc i) = 3 * (slots - i) + 2
work (swapping pc i) = 3 * (slots - i) + 1
work (checking pc i) = 3 * (slots - i)
work (stored pc) = 0
work (gave_up pc) = 0

abbrev pub Returned : Thread → Type 0
Returned (stored pc) = Unit {0}
Returned (gave_up pc) = Unit {0}
Returned _ = ⊥

next_round-work : (pc i : ℕ) → i < slots → work (next_round pc i) < 3 * (slots - i)
next_round-work pc i lt = elim (Bool-cases (ltb (i + 1) slots)) [
  | inl more ↦ rw more (ground arith)
  | inr last ↦ rw last (omega arith)
]

-- Each access of a thread that has not returned brings it nearer to its return, whatever table the
-- other threads have left, as long as what the thread knows of the table holds.
pub step-work : (t : Table) (l : Thread) → Knows t l → Returned l ⊎ (work (step t l).1 < work l)
unfolding step
step-work t (loading pc i) (nz, lt, b) = inr (ground (arith, next_round-work pc i))
step-work t (swapping pc i) (nz, lt, b) = inr (ground arith)
step-work t (checking pc i) (nz, lt, b, ne) = inr (ground (arith, next_round-work pc i))
step-work t (stored pc) k = inl tt
step-work t (gave_up pc) k = inl tt
