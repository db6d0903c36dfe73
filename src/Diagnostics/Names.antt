-- ===== src/Diagnostics/Names.antt =====
-- The names under which the reports of src/main/diagnostics.cpp print opcodes and states.
use pocket_monsters_stadium.Prelude.{
  ℕ, ◌/◌, ◌%◌, ◌^◌, Bool, ◌&&◌, ◌||◌, List, [], ◌∷◌, leb, ◌==◌, if◌then◌else◌, Bytes, codes,
  bytes_eq,
}

-- A switch over the values of a table of names.
unfoldable pub name_of : List (ℕ × Bytes) → ℕ → Bytes
name_of [] v = codes "UNKNOWN"
name_of ((k, n) ∷ xs) v = if v == k then n else name_of xs v

-- The task types of the SDK's headers, but 6, which is written out.
pub record TaskTypes : Type 0 where
  pub gfx : ℕ
  pub aud : ℕ
  pub vid : ℕ
  pub njpeg : ℕ

unfoldable pub sp_task_type_name : TaskTypes → ℕ → Bytes
unfolding name_of
sp_task_type_name t = name_of (
    (t.gfx, codes "M_GFXTASK")
    ∷ (t.aud, codes "M_AUDTASK")
    ∷ (t.vid, codes "M_VIDTASK")
    ∷ (t.njpeg, codes "M_NJPEGTASK")
    ∷ (6, codes "M_HVQMTASK")
    ∷ [])

-- The thread states of ultramodern.
pub record ThreadStates : Type 0 where
  pub stopped : ℕ
  pub queued : ℕ
  pub running : ℕ
  pub blocked : ℕ

unfoldable pub thread_state_name : ThreadStates → ℕ → Bytes
unfolding name_of
thread_state_name t = name_of (
    (t.stopped, codes "STOPPED")
    ∷ (t.queued, codes "QUEUED")
    ∷ (t.running, codes "RUNNING")
    ∷ (t.blocked, codes "BLOCKED")
    ∷ [])

unfoldable pub mesg_op_name : ℕ → Bytes
unfolding name_of
mesg_op_name = name_of (
    (1, codes "SEND_GAME")
    ∷ (2, codes "SEND_EXTERNAL")
    ∷ (3, codes "RECV_ENTER")
    ∷ (4, codes "RECV_BLOCK")
    ∷ (5, codes "RECV_RETURN_OK")
    ∷ (6, codes "EXT_DEQ_OK")
    ∷ (7, codes "EXT_DEQ_FULL")
    ∷ (8, codes "DO_SEND_BLOCK")
    ∷ [])

unfoldable pub mesg_is_block : ℕ → Bool
mesg_is_block op = op == 4 || op == 8

unfoldable pub sched_op_name : ℕ → Bytes
unfolding name_of
sched_op_name = name_of (
    (1, codes "INSERT")
    ∷ (2, codes "POP")
    ∷ (3, codes "REMOVE")
    ∷ (4, codes "REMOVE_MISS")
    ∷ (100, codes "SCHEDULE_RUNNING")
    ∷ (101, codes "CHECK_EMPTY")
    ∷ (102, codes "CHECK_PEEK")
    ∷ (103, codes "CHECK_NO_SWAP")
    ∷ (104, codes "CHECK_SWAP")
    ∷ (110, codes "SWAP_ENTER")
    ∷ (111, codes "SWAP_INSERT_SELF")
    ∷ (112, codes "SWAP_WAIT_ENTER")
    ∷ (113, codes "SWAP_WAIT_RETURN")
    ∷ (120, codes "WAIT_BEGIN")
    ∷ (121, codes "WAIT_RETURN")
    ∷ (122, codes "RESUME_SIGNAL")
    ∷ (123, codes "RUN_NEXT_ENTER")
    ∷ (124, codes "RUN_NEXT_EMPTY")
    ∷ (125, codes "RUN_NEXT_TARGET")
    ∷ (126, codes "RUN_NEXT_WAIT_ENTER")
    ∷ (127, codes "RUN_NEXT_WAIT_RETURN")
    ∷ (130, codes "YIELD_ANY_ENTER")
    ∷ (131, codes "YIELD_ANY_EMPTY")
    ∷ (132, codes "YIELD_ANY_TARGET")
    ∷ (133, codes "YIELD_ANY_REQUEUE_SELF")
    ∷ (134, codes "YIELD_ANY_WAIT_ENTER")
    ∷ (135, codes "YIELD_ANY_WAIT_RETURN")
    ∷ [])

unfoldable pub printable : ℕ → Bool
printable c = leb 0x20 c && leb c 0x7E

-- `out` up to its first NUL: the four characters of the value, or nothing if one is not printable.
unfoldable pub format_fourcc : ℕ → Bytes
unfolding printable
format_fourcc value =
    let a = value / 2 ^ 24 % 2 ^ 8 in
    let b = value / 2 ^ 16 % 2 ^ 8 in
    let c = value / 2 ^ 8 % 2 ^ 8 in
    let d = value % 2 ^ 8 in
    if printable a && printable b && printable c && printable d then a ∷ b ∷ c ∷ d ∷ [] else []

-- What stands for an instruction under flat memory: a no-op, or an abort.
unfoldable pub is_noop_under_hle : Bytes → Bool
is_noop_under_hle op =
    bytes_eq op (codes "tlbwi")
    || bytes_eq op (codes "tlbwr")
    || bytes_eq op (codes "tlbp")
    || bytes_eq op (codes "tlbr")
    || bytes_eq op (codes "cache")
