-- ===== src/Tests/Debug.antt =====
-- The debug server at concrete requests.
use pocket_monsters_stadium.Prelude.Bits.{digit}
use pocket_monsters_stadium.Prelude.{
  ℕ, ◌/◌, ◌≤◌, ◌⊎◌, min, length, some, none, ◌≡◌, refl, true, false, not, ◌||◌, List, [], ◌∷◌, ◌++◌,
  arith, Bytes, codes, ◌==◌, if◌then◌else◌, replicate,
}
use pocket_monsters_stadium.Memory.{Rdram}
use pocket_monsters_stadium.Memory.Bounds.{Agree}
use pocket_monsters_stadium.Debug.Request.{trim, get_cmd, get_str, get_bool, button_bit}
use pocket_monsters_stadium.Debug.Overrides.{initial, IsValid, set_button, set_button_lem}
use pocket_monsters_stadium.Debug.Sched.{SchedEvent, max_sums, sum_events}
use pocket_monsters_stadium.Debug.Sched.Rows.{row, summary, newest_first, row-sum_events}
use pocket_monsters_stadium.Debug.Answer.{Floats, Runtime, Server, verb_in, sched_reply, text}
use pocket_monsters_stadium.Debug.Handle.{serve, handle_line}
use pocket_monsters_stadium.Debug.Handle.Frame.{Holds, serve-Holds, handle_line_keeps}
use pocket_monsters_stadium.Prelude.Int.{pos}
use pocket_monsters_stadium.Debug.ReadMem.{read_mem, read_mem-Agree}
use pocket_monsters_stadium.Debug.Framing.{
  without_cr, client_loop, client_loop-line, client_loop_overlong,
}

initial-IsValid : IsValid initial
initial-IsValid = record {
  buttons = omega arith;
  x_low = omega arith;
  x_high = omega arith;
  y_low = omega arith;
  y_high = omega arith;
}

abbrev press_start : Bytes
press_start = codes "{\"cmd\":\"set_button\",\"name\":\"start\"}"

set_button_example :
    let bit = button_bit (get_str press_start (codes "name")) in
    let (t, known) = set_button press_start initial in
    (known ≡ not (bit == 0))
    × (t.stick_x ≡ initial.stick_x)
    × (t.stick_y ≡ initial.stick_y)
    × (t.fast_forward ≡ initial.fast_forward)
    × ((if known then initial else t) ≡ initial)
    × (t.active ≡ (known || initial.active))
    × (digit 12 t.buttons ≡ (
        if digit 12 bit == 1
        then if get_bool press_start (codes "down") true then 1 else 0
        else digit 12 initial.buttons))
set_button_example = set_button_lem press_start initial 12 (omega arith)

abbrev zero_ram : Rdram
zero_ram a = 0

abbrev other_ram : Rdram
other_ram a = a / 0x800000

same_ram : Agree zero_ram other_ram
same_ram a h = omega arith

abbrev peek : Bytes
peek = codes "{\"cmd\":\"read_mem\",\"addr\":\"0x807FFFF0\",\"len\":16}"

read_mem_example : read_mem zero_ram peek ≡ read_mem other_ram peek
read_mem_example = read_mem-Agree zero_ram other_ram peek same_ram

client_loop_example : client_loop [] (codes "ping\r" ++ (b'\n' ∷ codes "st")) ≡ (
  without_cr (codes "ping\r") ∷ (client_loop [] (codes "st")).0,
  (client_loop [] (codes "st")).1,
)
client_loop_example = client_loop-line (codes "ping\r") (codes "st") refl (omega arith)

-- 4096 letters, one more, and a command.
overlong_example :
    client_loop [] (replicate 4096 b'x' ++ (b'x' ∷ codes "quit\n"))
    ≡ client_loop [] (codes "quit\n")
overlong_example =
    client_loop_overlong (replicate 4096 b'x') (codes "quit\n") b'x' refl refl refl refl

-- Floats are stood for by numbers.
abbrev numbers : Floats ℕ
numbers = record {
  strtof = λ b. length b;
  unit_clamp = λ x. min x 1;
  one = 1;
  twenty_four = 24;
  to_uint = λ x. x;
}

abbrev WithinOne : ℕ → Type 0
WithinOne x = x ≤ 1

abbrev insert_event : ℕ → ℕ → SchedEvent
insert_event id queue = record {
  seq = 1;
  ms = 10;
  op = 1;
  queue = queue;
  thread = 0x80100000;
  current_thread = 0x80100000;
  head_after = 0;
  next_after = 0;
  thread_id = id;
  current_thread_id = id;
  priority = pos 10;
}

abbrev events : List SchedEvent
events = insert_event 3 0x80200000 ∷ insert_event 4 0 ∷ insert_event 3 0x80200010 ∷ []

abbrev runtime : Runtime
runtime = record {
  vi_ticks = 60;
  frame_count = 30;
  rdram = some zero_ram;
  lookup_missed = λ a. a == 0;
  jit = λ a. record { ok = true; func_size = 16; code_size = 64; err = [] };
  evicted = pos 0;
  pointer_site = (0x80001000, false);
  sched_size_fits = true;
  sched_events = events;
  sched_next = 3;
  mesg_size_fits = true;
  mesg_events = [];
  mesg_next = 0;
  qstate_size_fits = true;
  qstates = [];
  opens = true;
}

abbrev server : Server ℕ
server = record { overrides = initial; volume = 0 }

abbrev session : Bytes
session =
    codes "{\"cmd\":\"set_stick\",\"x\":200,\"y\":-200}\n{\"cmd\":\"set_volume\",\"value\":7}\n"

serve_example : Holds WithinOne (serve numbers (λ n. runtime) session server)
serve_example =
    serve-Holds numbers WithinOne (λ x. ground arith) (λ n. runtime) session server
      (record { overrides = initial-IsValid; volume = omega arith })

keeps_example : (handle_line numbers runtime (codes "ping ") server).server ≡ server
unfolding verb_in get_cmd trim
keeps_example = handle_line_keeps numbers runtime (codes "ping ") server refl

sum_events_example :
    (length (sum_events events []) ≤ max_sums)
    × ((row 3 (sum_events events []) ≡ summary 3 (newest_first events []))
        ⊎ ((row 3 (sum_events events []) ≡ none) × (length (sum_events events []) ≡ max_sums)))
sum_events_example = row-sum_events 3 events

-- A full listing of the scheduler, and the reply to an unknown command.
sched_run : (handle_line numbers runtime (codes "dump_sched") server).reply ≡ sched_reply 3 2 3
unfolding handle_line
sched_run = refl

unknown_run :
    (handle_line numbers runtime (codes "pong") server).reply
    ≡ text (codes "{\"ok\":false,\"error\":\"unknown command\"}")
unfolding handle_line
unknown_run = refl
