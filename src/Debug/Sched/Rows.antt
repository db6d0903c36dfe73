-- ===== src/Debug/Sched/Rows.antt =====
-- The rows of the dump_sched command of src/main/debug_server.cpp are what the events say.
use pocket_monsters_stadium.Prelude.{
  ℕ, suc, ◌+◌, ◌%◌, ◌^◌, ◌≤◌, ◌<◌, ◌≡◌, refl, sym, ◌∙◌, Bool, true, false, not, ◌&&◌, List, [], ◌∷◌,
  Option, none, some, ltb, ◌==◌, if◌then◌else◌, length, arith, Bool-cases, inl, inr, ◌⊎◌,
}
use pocket_monsters_stadium.Debug.Sched.{
  SchedEvent, ThreadSum, max_sums, skipped, inserts, after, place, sum_event, sum_events,
}

-- The first element with a property, and the number of those with it.
unfoldable pub first_where : {A : Type 0} → (A → Bool) → List A → Option A
first_where p [] = none
first_where p (x ∷ xs) = let rest = first_where p xs in if p x then some x else rest

unfoldable pub count_where : {A : Type 0} → (A → Bool) → List A → ℕ
count_where p [] = 0
count_where p (x ∷ xs) = let rest = count_where p xs in if p x then suc rest else rest

-- The events, newest first, in front of older ones.
unfoldable pub newest_first : List SchedEvent → List SchedEvent → List SchedEvent
newest_first [] older = older
newest_first (e ∷ es) older = newest_first es (e ∷ older)

unfoldable pub of_thread : ℕ → SchedEvent → Bool
of_thread id e = not (skipped e) && e.thread_id == id

abbrev pub inserts_of : ℕ → SchedEvent → Bool
inserts_of id e = of_thread id e && inserts e

abbrev pub queue_of : Option SchedEvent → ℕ
queue_of none = 0
queue_of (some e) = e.queue

abbrev pub ms_of : Option SchedEvent → ℕ
ms_of none = 0
ms_of (some e) = e.ms

-- The row of a thread: its newest event, the number of its events, and its newest insert.
abbrev pub row_of : Option SchedEvent → ℕ → Option SchedEvent → Option ThreadSum
row_of none n i = none
row_of (some e) n i = some (record {
  thread = e.thread;
  pri = e.priority;
  op = e.op;
  queue = e.queue;
  head_after = e.head_after;
  ms = e.ms;
  id = e.thread_id;
  count = n % 2 ^ 32;
  mq = queue_of i;
  mq_ms = ms_of i;
})

unfoldable pub summary : ℕ → List SchedEvent → Option ThreadSum
unfolding first_where count_where
summary id es =
    row_of (first_where (of_thread id) es) (count_where (of_thread id) es)
      (first_where (inserts_of id) es)

-- The row of a thread in the table.
abbrev pub has_id : ℕ → ThreadSum → Bool
has_id id s = s.id == id

unfoldable pub row : ℕ → List ThreadSum → Option ThreadSum
unfolding first_where
row id ss = first_where (has_id id) ss

-- Without an event of the thread there is no insert either.
none_counted :
    (id : ℕ) (es : List SchedEvent)
    → first_where (of_thread id) es ≡ none
    → (count_where (of_thread id) es ≡ 0) × (first_where (inserts_of id) es ≡ none)
unfolding first_where count_where
none_counted id [] h = (refl, refl)
none_counted id (e ∷ es) h = ground (arith, none_counted id es)

summary_other :
    (id : ℕ) (e : SchedEvent) (es : List SchedEvent)
    → of_thread id e ≡ false
    → summary id (e ∷ es) ≡ summary id es
unfolding summary first_where count_where
summary_other id e es h = rw h refl

-- One event more for a row.
own_row :
    (e : SchedEvent) (o : Option SchedEvent) (n : ℕ) (i : Option SchedEvent)
    → (o ≡ none → (n ≡ 0) × (i ≡ none))
    → row_of (some e) (suc n) (if inserts e then some e else i) ≡ some (after (row_of o n i) e)
own_row e none n i absent =
    let (z, gone) = absent refl in
    elim (Bool-cases (inserts e)) [ inl b ↦ rw (z, b) refl | inr b ↦ rw (z, gone, b) refl ]
own_row e (some x) n i absent =
    let same : suc n % 2 ^ 32 ≡ (n % 2 ^ 32 + 1) % 2 ^ 32 = omega arith in
    elim (Bool-cases (inserts e)) [ inl b ↦ rw (b, same) refl | inr b ↦ rw (b, same) refl ]

summary_own :
    (id : ℕ) (e : SchedEvent) (es : List SchedEvent)
    → of_thread id e ≡ true
    → summary id (e ∷ es) ≡ some (after (summary id es) e)
unfolding summary first_where count_where
summary_own id e es h = rw h (
    own_row e (first_where (of_thread id) es) (count_where (of_thread id) es)
      (first_where (inserts_of id) es) (none_counted id es))

place_other :
    (full : Bool) (id : ℕ) (e : SchedEvent) (ss : List ThreadSum)
    → (e.thread_id == id) ≡ false
    → row id (place full e ss) ≡ row id ss
unfolding row first_where place
place_other true id e [] h = refl
place_other false id e [] h = rw h refl
place_other full id e (s ∷ ss) h = ground (arith, place_other full id e ss h)

place_found :
    (full : Bool) (e : SchedEvent) (ss : List ThreadSum) (s : ThreadSum)
    → row e.thread_id ss ≡ some s
    → row e.thread_id (place full e ss) ≡ some (after (some s) e)
unfolding row first_where place
place_found full e [] s h = absurd cc
place_found full e (t ∷ ss) s h = ground (arith, place_found full e ss s)

place_new :
    (full : Bool) (e : SchedEvent) (ss : List ThreadSum)
    → row e.thread_id ss ≡ none
    → row e.thread_id (place full e ss) ≡ (if full then none else some (after none e))
unfolding row first_where place
place_new full e [] h = ground arith
place_new full e (t ∷ ss) h = ground (arith, place_new full e ss)

length-place_full : (e : SchedEvent) (ss : List ThreadSum) → length (place true e ss) ≡ length ss
unfolding place
length-place_full e [] = refl
length-place_full e (s ∷ ss) = ground (arith, length-place_full e ss)

length-place : (e : SchedEvent) (ss : List ThreadSum) → length (place false e ss) ≤ suc (length ss)
unfolding place
length-place e [] = omega arith
length-place e (s ∷ ss) = ground (arith, length-place e ss)

-- The table holds the row of a thread as its events say, unless it is full without it.
abbrev pub Covers : List ThreadSum → List SchedEvent → ℕ → Type 0
Covers sums es id =
    (row id sums ≡ summary id es) ⊎ ((row id sums ≡ none) × (length sums ≡ max_sums))

-- The flag tells whether the table is full.
abbrev Tells : Bool → List ThreadSum → Type 0
Tells true sums = length sums ≡ max_sums
Tells false sums = length sums < max_sums

Tells-full :
    (sums : List ThreadSum) → length sums ≤ max_sums → Tells (not (ltb (length sums) max_sums)) sums
Tells-full sums le = elim (Bool-cases (ltb (length sums) max_sums)) [
  | inl h ↦ rw h (ground arith)
  | inr h ↦ rw h (ground arith)
]

abbrev Step : Bool → ℕ → SchedEvent → List ThreadSum → List SchedEvent → Type 0
Step full id e sums es = Covers (place full e sums) (e ∷ es) id

Step-other :
    (full : Bool) (id : ℕ) (e : SchedEvent) (sums : List ThreadSum) (es : List SchedEvent)
    → Tells full sums
    → (e.thread_id == id) ≡ false
    → Covers sums es id
    → Step full id e sums es
unfolding of_thread
Step-other full id e sums es f h (inl same) =
    let old = summary_other id e es (ground arith) in
    let keep = place_other full id e sums h in inl cc
Step-other true id e sums es size' h (inr (gone, size)) =
    let keep = place_other true id e sums h in
    let long = length-place_full e sums in inr (cc, long ∙ size)
Step-other false id e sums es room h (inr (gone, size)) = absurd (omega arith)

-- The row of the event's own thread.
Step-own :
    (full : Bool) (e : SchedEvent) (sums : List ThreadSum) (es : List SchedEvent)
    → Tells full sums
    → skipped e ≡ false
    → (o : Option ThreadSum) → row e.thread_id sums ≡ o
    → Covers sums es e.thread_id
    → Step full e.thread_id e sums es
unfolding of_thread
Step-own full e sums es f shown (some s) h (inl same) =
    let own = summary_own e.thread_id e es (ground arith) in
    let found = place_found full e sums s h in inl cc
Step-own full e sums es f shown (some s) h (inr (gone, size)) = absurd cc
Step-own true e sums es size shown none h c =
    inr (place_new true e sums h, length-place_full e sums ∙ size)
Step-own false e sums es room shown none h (inl same) =
    let own = summary_own e.thread_id e es (ground arith) in
    let new = place_new false e sums h in inl cc
Step-own false e sums es room shown none h (inr (gone, size)) = absurd (omega arith)

place-Covers :
    (id : ℕ) (e : SchedEvent) (sums : List ThreadSum) (es : List SchedEvent)
    → length sums ≤ max_sums
    → skipped e ≡ false
    → Covers sums es id
    → Covers (place (not (ltb (length sums) max_sums)) e sums) (e ∷ es) id
place-Covers id e sums es le shown c =
    let tells = Tells-full sums le in
    elim (Bool-cases (e.thread_id == id)) [
      | inl h ↦
          let own : e.thread_id ≡ id = ground arith in
          rw (sym own) (Step-own _ e sums es tells shown _ refl (rw own c))
      | inr h ↦ Step-other _ id e sums es tells h c
    ]

sum_event-Covers :
    (id : ℕ) (e : SchedEvent) (sums : List ThreadSum) (es : List SchedEvent)
    → length sums ≤ max_sums
    → Covers sums es id
    → Covers (sum_event e sums) (e ∷ es) id
unfolding sum_event of_thread
sum_event-Covers id e sums es le c = elim (Bool-cases (skipped e)) [
  | inl h ↦ let old = summary_other id e es (ground arith) in rw (h, old) c
  | inr h ↦ rw h (place-Covers id e sums es le h c)
]

length-sum_event :
    (e : SchedEvent) (sums : List ThreadSum)
    → length sums ≤ max_sums
    → length (sum_event e sums) ≤ max_sums
unfolding sum_event
length-sum_event e sums le = ground (arith, length-place_full e sums, length-place e sums)

sum_events-Covers :
    (id : ℕ) (es : List SchedEvent) (sums : List ThreadSum) (older : List SchedEvent)
    → length sums ≤ max_sums
    → Covers sums older id
    → (length (sum_events es sums) ≤ max_sums)
      × Covers (sum_events es sums) (newest_first es older) id
unfolding sum_events newest_first
sum_events-Covers id [] sums older le c = (le, c)
sum_events-Covers id (e ∷ es) sums older le c =
    sum_events-Covers id es (sum_event e sums) (e ∷ older) (length-sum_event e sums le)
      (sum_event-Covers id e sums older le c)

-- The table of dump_sched has 64 rows at most, and the row of a thread is what the thread's events
-- say: the newest event, their number, and the newest insert into a queue. A thread has no row
-- only when no event names it or the table is full.
pub row-sum_events :
    (id : ℕ) (es : List SchedEvent)
    → (length (sum_events es []) ≤ max_sums)
      × ((row id (sum_events es []) ≡ summary id (newest_first es []))
          ⊎ ((row id (sum_events es []) ≡ none) × (length (sum_events es []) ≡ max_sums)))
unfolding row summary first_where
row-sum_events id es = sum_events-Covers id es [] [] (omega arith) (inl refl)
