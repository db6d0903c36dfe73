-- ===== src/Diagnostics/Threads.antt =====
-- The thread and queue lists of the watchdog's report (src/main/diagnostics.cpp).
use pocket_monsters_stadium.Prelude.{
  ℕ, zero, suc, ◌≤◌, ◌≡◌, inl, inr, refl, Bool, true, false, ◌||◌, not, List, [], ◌∷◌, ◌++◌, arith,
  ltb, ◌==◌, if◌then◌else◌, length, length-append, Bool-cases,
}
use pocket_monsters_stadium.Memory.{Rdram, rdram_range}

unfoldable pub is_guest_ptr : ℕ → Bool
is_guest_ptr ptr = rdram_range ptr 1

unfoldable pub listed : ℕ → List ℕ → Bool
listed v [] = false
listed v (x ∷ xs) = x == v || listed v xs

-- `items` are the first `count` entries of an array of `cap`.
unfoldable pub append_unique : ℕ → List ℕ → ℕ → List ℕ
unfolding is_guest_ptr listed
append_unique cap items value =
    if not (is_guest_ptr value)
    then items
    else if listed value items
    then items
    else if ltb (length items) cap
    then items ++ (value ∷ [])
    else items

-- How a walk along `next` ends: at a pointer that is no guest pointer, at one whose thread does not
-- lie in RDRAM, or after 16 threads.
pub data WalkEnd : Type 0 where
  empty done more : WalkEnd
  invalid : ℕ → WalkEnd

module _ (thread_size : ℕ) (next : Rdram → ℕ → ℕ) where
  -- The loop with `left` rounds to go: the threads printed, and the end.
  unfoldable pub walk : Rdram → ℕ → ℕ → List ℕ × WalkEnd
  unfolding is_guest_ptr
  walk rdram cur zero = ([], if is_guest_ptr cur then more else done)
  walk rdram cur (suc left) =
      let rest = walk rdram (next rdram cur) left in
      if is_guest_ptr cur
      then if rdram_range cur thread_size then (cur ∷ rest.0, rest.1) else ([], invalid cur)
      else ([], done)

  -- `thread_size` is sizeof(OSThread) and `next` its field, both of the runtime's headers.
  unfoldable pub print_thread_list : Rdram → ℕ → List ℕ × WalkEnd
  print_thread_list rdram head = if is_guest_ptr head then walk rdram head 16 else ([], empty)

-- The pointers to distinct objects in RDRAM that a table of the report may hold.
abbrev pub AllGuest : List ℕ → Type 0
AllGuest [] = Unit {0}
AllGuest (x ∷ xs) = (is_guest_ptr x ≡ true) × AllGuest xs

abbrev pub AllDistinct : List ℕ → Type 0
AllDistinct [] = Unit {0}
AllDistinct (x ∷ xs) = (listed x xs ≡ false) × AllDistinct xs

pub record IsTable (cap : ℕ) (items : List ℕ) : Type 0 where
  pub guest : AllGuest items
  pub distinct : AllDistinct items
  pub fits : length items ≤ cap

AllGuest-snoc :
    (xs : List ℕ) (v : ℕ) → AllGuest xs → is_guest_ptr v ≡ true → AllGuest (xs ++ (v ∷ []))
AllGuest-snoc [] v h g = (g, tt)
AllGuest-snoc (x ∷ xs) v (hx, h) g = (hx, AllGuest-snoc xs v h g)

listed-snoc : (xs : List ℕ) (v w : ℕ) → listed w (xs ++ (v ∷ [])) ≡ (listed w xs || v == w)
unfolding listed
listed-snoc [] v w = ground arith
listed-snoc (x ∷ xs) v w = ground (arith, listed-snoc xs v w)

AllDistinct-snoc :
    (xs : List ℕ) (v : ℕ) → AllDistinct xs → listed v xs ≡ false → AllDistinct (xs ++ (v ∷ []))
unfolding listed
AllDistinct-snoc [] v h n = (refl, tt)
AllDistinct-snoc (x ∷ xs) v (hx, h) n =
    (ground (arith, listed-snoc xs v x), AllDistinct-snoc xs v h (ground arith))

-- An addition keeps the table: guest pointers only, no duplicates, never more than its capacity.
pub append_unique-IsTable :
    (cap v : ℕ) (items : List ℕ) → IsTable cap items → IsTable cap (append_unique cap items v)
unfolding append_unique
append_unique-IsTable cap v items t = elim (Bool-cases (is_guest_ptr v)) [
  | inr no_guest ↦ rw no_guest t
  | inl guest ↦ elim (Bool-cases (listed v items)) [
    | inl old ↦ rw (guest, old) t
    | inr new ↦ elim (Bool-cases (ltb (length items) cap)) [
      | inr full ↦ rw (guest, new, full) t
      | inl room ↦
          rw (guest, new, room)
            (record {
              guest = AllGuest-snoc items v t.guest guest;
              distinct = AllDistinct-snoc items v t.distinct new;
              fits = ground (arith, length-append items (v ∷ []));
            })
    ]
  ]
]

module _ (size : ℕ) (next : Rdram → ℕ → ℕ) where
  abbrev pub AllInside : List ℕ → Type 0
  AllInside [] = Unit {0}
  AllInside (x ∷ xs) = (rdram_range x size ≡ true) × AllInside xs

  walk_lem :
      (rdram : Rdram) (left cur : ℕ)
      → AllInside (walk size next rdram cur left).0
        × (length (walk size next rdram cur left).0 ≤ left)
  unfolding walk
  walk_lem rdram zero cur = (tt, omega arith)
  walk_lem rdram (suc left) cur = elim (Bool-cases (is_guest_ptr cur)) [
    | inr no_guest ↦ rw no_guest (tt, omega arith)
    | inl guest ↦ elim (Bool-cases (rdram_range cur size)) [
      | inr bad ↦ rw (guest, bad) (tt, omega arith)
      | inl ok ↦
          let (inside, few) = walk_lem rdram left (next rdram cur) in
          rw (guest, ok) ((ok, inside), omega arith)
    ]
  ]

  -- Whatever the links in guest memory are, even a cycle, at most 16 threads are listed, each of them
  -- wholly in RDRAM.
  pub print_thread_list-AllInside :
      (rdram : Rdram) (head : ℕ)
      → AllInside (print_thread_list size next rdram head).0
        × (length (print_thread_list size next rdram head).0 ≤ 16)
  unfolding print_thread_list
  print_thread_list-AllInside rdram head = elim (Bool-cases (is_guest_ptr head)) [
    | inr no_guest ↦ rw no_guest (tt, omega arith)
    | inl guest ↦ rw guest (walk_lem rdram 16 head)
  ]
