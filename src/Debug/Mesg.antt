-- ===== src/Debug/Mesg.antt =====
-- The dump_mesg command of src/main/debug_server.cpp: which events of the message ring and of each
-- queue's own ring it prints. The rings are librecomp's.
use pocket_monsters_stadium.Prelude.{
  ℕ, zero, suc, ◌+◌, ◌-◌, ◌%◌, Bool, ◌&&◌, ◌||◌, List, [], ◌∷◌, map, ltb, ◌==◌, if◌then◌else◌,
  length, drop,
}

-- MesgEvent
pub record MesgEvent : Type 0 where
  pub seq : ℕ
  pub ms : ℕ
  pub mq : ℕ
  pub msg : ℕ
  pub thread : ℕ
  pub thread_id : ℕ
  pub valid_before : ℕ
  pub valid_after : ℕ
  pub op : ℕ
  pub block : ℕ
  pub game_thread : ℕ

-- QState; `last` is its array of QEVENTS entries.
pub record QState : Type 0 where
  pub queue : ℕ
  pub count : ℕ
  pub last : ℕ → MesgEvent

-- QEVENTS
abbrev pub queue_depth : ℕ
queue_depth = 64

-- Without a filter everything passes.
abbrev pub passes : ℕ → ℕ → Bool
passes filt mq = filt == 0 || mq == filt

-- `(cnt - shown_n + k) & (QEVENTS - 1)` for k from 0 to shown_n.
unfoldable pub slots_from : ℕ → ℕ → List ℕ
slots_from zero at = []
slots_from (suc n) at = at % queue_depth ∷ slots_from n (at + 1)

-- The events printed for a queue.
unfoldable pub queue_events : QState → List MesgEvent
unfolding slots_from
queue_events q =
    let shown = if ltb q.count queue_depth then q.count else queue_depth in
    map q.last (slots_from shown (q.count - shown))

-- The queues printed, with their events.
unfoldable pub queue_table : ℕ → List QState → List (QState × List MesgEvent)
unfolding queue_events
queue_table filt [] = []
queue_table filt (q ∷ qs) =
    let rest = queue_table filt qs in
    if passes filt q.queue then (q, queue_events q) ∷ rest else rest

-- EXT_DEQ_FULL in the window
unfoldable pub full_drops : List MesgEvent → ℕ
full_drops [] = 0
full_drops (e ∷ es) = let rest = full_drops es in if e.op == 7 then suc rest else rest

unfoldable pub passing : ℕ → List MesgEvent → List MesgEvent
passing filt [] = []
passing filt (e ∷ es) = let rest = passing filt es in if passes filt e.mq then e ∷ rest else rest

-- Where the raw events start: a filter looks at all of them.
unfoldable pub raw_start : ℕ → ℕ → ℕ → ℕ
raw_start n tail filt = if ltb tail n && filt == 0 then n - tail else 0

-- The raw events printed.
unfoldable pub raw_events : List MesgEvent → ℕ → ℕ → List MesgEvent
unfolding passing raw_start
raw_events es tail filt = passing filt (drop (raw_start (length es) tail filt) es)
