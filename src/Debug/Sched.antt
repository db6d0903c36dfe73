-- ===== src/Debug/Sched.antt =====
-- The dump_sched command of src/main/debug_server.cpp: the row of each thread over the scheduler's
-- ring, and which raw events it prints. The ring is librecomp's and comes as a list, oldest first.
use pocket_monsters_stadium.Prelude.Int.{ℤ}
use pocket_monsters_stadium.Prelude.{
  ℕ, ◌+◌, ◌-◌, ◌%◌, ◌^◌, Bool, not, ◌&&◌, List, [], ◌∷◌, Option, none, some, ltb, ◌==◌,
  if◌then◌else◌, length,
}
pub mod Rows

-- SchedEvent
pub record SchedEvent : Type 0 where
  pub seq : ℕ
  pub ms : ℕ
  pub op : ℕ
  pub queue : ℕ
  pub thread : ℕ
  pub current_thread : ℕ
  pub head_after : ℕ
  pub next_after : ℕ
  pub thread_id : ℕ
  pub current_thread_id : ℕ
  pub priority : ℤ

-- ThreadSum
pub record ThreadSum : Type 0 where
  pub thread : ℕ
  pub pri : ℤ
  pub op : ℕ
  pub queue : ℕ
  pub head_after : ℕ
  pub ms : ℕ
  pub id : ℕ
  pub count : ℕ
  pub mq : ℕ
  pub mq_ms : ℕ

abbrev pub max_sums : ℕ
max_sums = 64

-- An event without a thread is left out.
abbrev pub skipped : SchedEvent → Bool
skipped e = e.thread_id == 0 && e.thread == 0

-- INSERT into a queue that is there
abbrev pub inserts : SchedEvent → Bool
inserts e = e.op == 1 && not (e.queue == 0xFFFFFFFF) && not (e.queue == 0)

-- The row after an event, from its count and its queue before.
abbrev pub note : SchedEvent → ℕ → ℕ → ℕ → ThreadSum
note e count mq mq_ms = record {
  thread = e.thread;
  pri = e.priority;
  op = e.op;
  queue = e.queue;
  head_after = e.head_after;
  ms = e.ms;
  id = e.thread_id;
  count = (count + 1) % 2 ^ 32;
  mq = if inserts e then e.queue else mq;
  mq_ms = if inserts e then e.ms else mq_ms;
}

abbrev pub after : Option ThreadSum → SchedEvent → ThreadSum
after none e = note e 0 0 0
after (some s) e = note e s.count s.mq s.mq_ms

-- The search for the row of the event's thread, and the update of what it finds.
unfoldable pub place : Bool → SchedEvent → List ThreadSum → List ThreadSum
place full e [] = if full then [] else after none e ∷ []
place full e (s ∷ ss) =
    let rest = place full e ss in if s.id == e.thread_id then after (some s) e ∷ ss else s ∷ rest

unfoldable pub sum_event : SchedEvent → List ThreadSum → List ThreadSum
unfolding place
sum_event e sums = if skipped e then sums else place (not (ltb (length sums) max_sums)) e sums

unfoldable pub sum_events : List SchedEvent → List ThreadSum → List ThreadSum
unfolding sum_event
sum_events [] sums = sums
sum_events (e ∷ es) sums = sum_events es (sum_event e sums)

-- Where the raw events start: at the last `tail` of `n`.
unfoldable pub raw_start : ℕ → ℕ → ℕ
raw_start n tail = if ltb tail n then n - tail else 0
