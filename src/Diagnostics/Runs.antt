-- ===== src/Diagnostics/Runs.antt =====
-- The run-length listing of the function-name ring in the watchdog's report (src/main/diagnostics.cpp).
use pocket_monsters_stadium.Prelude.{
  ℕ, zero, suc, ◌+◌, ◌-◌, ◌<◌, ◌≡◌, refl, ◌∙◌, ap, Bool, true, false, ◌&&◌, List, [], ◌∷◌, ◌++◌,
  Option, none, some, arith, ltb, ◌==◌, if◌then◌else◌, Bytes, bytes_eq, bytes_eq_iff, replicate,
  Bool-cases, inl, inr,
}
use pocket_monsters_stadium.Diagnostics.Trace.{
  TraceNameEvent, Trace, trace_cap, trace_write_idx, unwritten,
}
use pocket_monsters_stadium.Diagnostics.Report.{window}

-- `prev.name` and `cur.name` are set and equal, on the same thread.
unfoldable pub same_name : Option Bytes → Option Bytes → Bool
same_name none b = false
same_name (some a) none = false
same_name (some a) (some b) = bytes_eq b a

unfoldable pub same_run : TraceNameEvent → TraceNameEvent → Bool
unfolding same_name
same_run prev cur =
    same_name prev.name cur.name && cur.thread == prev.thread && cur.thread_id == prev.thread_id

-- A line of the listing: the index of its first entry, the entry, and how often it stands there.
pub record Run : Type 0 where
  pub start : ℕ
  pub entry : TraceNameEvent
  pub count : ℕ

unfoldable pub flush_run : TraceNameEvent → ℕ → ℕ → List Run
flush_run prev run_start run_len =
    if run_len == 0 then [] else record { start = run_start; entry = prev; count = run_len } ∷ []

unfoldable pub runs_from : ℕ → TraceNameEvent → ℕ → ℕ → List TraceNameEvent → List Run
unfolding same_run flush_run
runs_from i prev run_start run_len [] = flush_run prev run_start run_len
runs_from i prev run_start run_len (cur ∷ xs) =
    let longer = runs_from (i + 1) prev run_start (run_len + 1) xs in
    let next = flush_run prev run_start run_len ++ runs_from (i + 1) cur i 1 xs in
    if same_run prev cur then longer else next

-- The index of the oldest entry retained, and how many there are.
abbrev pub retained : Trace → ℕ
retained t = if ltb (trace_write_idx t) trace_cap then trace_write_idx t else trace_cap

unfoldable pub function_ring : Trace → List Run
unfolding window
function_ring t =
    let first = trace_write_idx t - retained t in
    runs_from first unwritten 0 0 (window t first (retained t))

-- The entries that lines stand for.
abbrev pub expand : List Run → List TraceNameEvent
expand [] = []
expand (r ∷ rs) = replicate r.count r.entry ++ expand rs

-- The lines number the entries from `i` on without gaps.
abbrev pub IsNumbered : ℕ → List Run → Type 0
IsNumbered i [] = Unit {0}
IsNumbered i (r ∷ rs) = (r.start ≡ i) × (0 < r.count) × IsNumbered (i + r.count) rs

same_run_lem : (p c : TraceNameEvent) → same_run p c ≡ true → p ≡ c
unfolding same_run
same_run_lem p c h = names p.name c.name p c refl refl h
  where
    names :
        (a b : Option Bytes) (x y : TraceNameEvent)
        → x.name ≡ a
        → y.name ≡ b
        → (same_name a b && y.thread == x.thread && y.thread_id == x.thread_id) ≡ true
        → x ≡ y
    names none b x y ea eb t = cc
    names (some a) none x y ea eb t = cc
    names (some a) (some b) x y ea eb t = ground (arith, bytes_eq_iff b a)

abbrev copies : ℕ → TraceNameEvent → List TraceNameEvent → List TraceNameEvent
copies zero e xs = xs
copies (suc n) e xs = e ∷ copies n e xs

copies-replicate :
    (n : ℕ) (e : TraceNameEvent) (xs : List TraceNameEvent) → replicate n e ++ xs ≡ copies n e xs
copies-replicate zero e xs = refl
copies-replicate (suc n) e xs = ap (λ (l : List TraceNameEvent). e ∷ l) (copies-replicate n e xs)

copies_more :
    (n : ℕ) (e : TraceNameEvent) (xs : List TraceNameEvent)
    → copies (suc n) e xs ≡ copies n e (e ∷ xs)
copies_more zero e xs = refl
copies_more (suc n) e xs = ap (λ (l : List TraceNameEvent). e ∷ l) (copies_more n e xs)

-- A flushed run in front of lines that are right for the rest.
flush_run_lem :
    (e : TraceNameEvent) (s n : ℕ) (rs : List Run)
    → IsNumbered (s + n) rs
    → (expand (flush_run e s n ++ rs) ≡ copies n e (expand rs))
      × IsNumbered s (flush_run e s n ++ rs)
unfolding flush_run
flush_run_lem e s zero rs h = (refl, rw (same s) at h)
  where
    same : (k : ℕ) → k + 0 ≡ k
    same k = omega arith
flush_run_lem e s (suc n) rs h =
    let t : (suc n == 0) ≡ false = ground arith in
    rw t (copies-replicate (suc n) e (expand rs), (refl, omega arith, h))

abbrev IsListing : ℕ → List TraceNameEvent → List Run → Type 0
IsListing i xs rs = (expand rs ≡ xs) × IsNumbered i rs

flushed :
    (e : TraceNameEvent) (s n i : ℕ) (xs : List TraceNameEvent) (rs : List Run)
    → s + n ≡ i
    → IsListing i xs rs
    → IsListing s (copies n e xs) (flush_run e s n ++ rs)
flushed e s n i xs rs p (q, h) =
    let (x, y) = flush_run_lem e s n rs (rw p h) in (x ∙ ap (copies n e) q, y)

append_nil : (rs : List Run) → rs ++ [] ≡ rs
append_nil [] = refl
append_nil (r ∷ rs) = ap (λ (l : List Run). r ∷ l) (append_nil rs)

runs_from_lem :
    (xs : List TraceNameEvent) (i s n : ℕ) (e : TraceNameEvent)
    → s + n ≡ i
    → IsListing s (copies n e xs) (runs_from i e s n xs)
unfolding runs_from
runs_from_lem [] i s n e p =
    rw (append_nil (flush_run e s n)) at (flushed e s n i [] [] p (refl, tt))
runs_from_lem (c ∷ xs) i s n e p = elim (Bool-cases (same_run e c)) [
  | inl same ↦
      let (q, h) = runs_from_lem xs (i + 1) s (n + 1) e (omega arith) in
      rw same
        (q ∙ longer ∙ ap (λ (y : TraceNameEvent). copies n e (y ∷ xs)) (same_run_lem e c same), h)
  | inr other ↦ rw other (flushed e s n i (c ∷ xs) _ p (runs_from_lem xs (i + 1) i 1 c refl))
]
  where
    longer : copies (n + 1) e xs ≡ copies n e (e ∷ xs)
    longer = let k : n + 1 ≡ suc n = omega arith in rw k (copies_more n e xs)

first_run : (xs : List TraceNameEvent) (i : ℕ) → IsListing i xs (runs_from i unwritten 0 0 xs)
unfolding runs_from same_run same_name flush_run
first_run [] i = (refl, tt)
first_run (c ∷ xs) i = runs_from_lem xs (i + 1) i 1 c refl

-- The run-length listing of the function-name ring loses nothing: its lines stand for exactly the
-- retained entries, oldest first, and each line bears the index of its first entry.
pub function_ring_lem :
    (t : Trace)
    → (expand (function_ring t) ≡ window t (trace_write_idx t - retained t) (retained t))
      × IsNumbered (trace_write_idx t - retained t) (function_ring t)
unfolding function_ring
function_ring_lem t =
    first_run (window t (trace_write_idx t - retained t) (retained t))
      (trace_write_idx t - retained t)
