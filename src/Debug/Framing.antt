-- ===== src/Debug/Framing.antt =====
-- How `client_loop` of src/main/debug_server.cpp cuts what it receives into lines.
use pocket_monsters_stadium.Prelude.{
  ℕ, suc, ◌+◌, ◌≤◌, ◌≡◌, refl, sym, ap, ◌∙◌, true, false, List, [], ◌∷◌, ◌++◌, Option, none, some,
  ltb, ◌==◌, if◌then◌else◌, Bytes, arith, Bool-cases, inl, inr, length, length-append, has_byte,
}

-- `line`, after a byte has been pushed: emptied beyond 4096 bytes.
abbrev pub push : Bytes → ℕ → Bytes
push line ch = let grown = line ++ (ch ∷ []) in if ltb 4096 (length grown) then [] else grown

-- One byte received: the line that is then handled, if any, and the line that is kept.
unfoldable pub receive : Bytes → ℕ → Option Bytes × Bytes
receive line ch =
    if ch == b'\n'
    then (some line, [])
    else if ch == b'\r'
    then (none, line)
    else (none, push line ch)

abbrev handled : Option Bytes → List Bytes → List Bytes
handled none ls = ls
handled (some l) ls = l ∷ ls

-- The lines handled while bytes come in, in order, and the line that is kept at the end.
unfoldable pub client_loop : Bytes → Bytes → List Bytes × Bytes
unfolding receive
client_loop line [] = ([], line)
client_loop line (ch ∷ rest) =
    let (l, kept) = receive line ch in
    let (ls, last) = client_loop kept rest in (handled l ls, last)

-- The bytes of a line as it is handled: without carriage returns.
abbrev pub without_cr : Bytes → Bytes
without_cr [] = []
without_cr (c ∷ cs) = let rest = without_cr cs in if c == b'\r' then rest else c ∷ rest

append_none : (xs : Bytes) → xs ++ [] ≡ xs
append_none [] = refl
append_none (x ∷ xs) = ap (x ∷◌) (append_none xs)

append_assoc : (xs ys zs : Bytes) → (xs ++ ys) ++ zs ≡ xs ++ (ys ++ zs)
append_assoc [] ys zs = refl
append_assoc (x ∷ xs) ys zs = ap (x ∷◌) (append_assoc xs ys zs)

receive_plain :
    (line : Bytes) (c : ℕ)
    → (c == b'\n') ≡ false
    → (c == b'\r') ≡ false
    → length line + 1 ≤ 4096
    → receive line c ≡ (none, line ++ (c ∷ []))
unfolding receive
receive_plain line c n r h =
    let grown = length-append line (c ∷ []) in
    let short : ltb 4096 (length (line ++ (c ∷ []))) ≡ false = ground arith in rw (n, r, short) refl

receive_overlong :
    (line : Bytes) (c : ℕ)
    → (c == b'\n') ≡ false
    → (c == b'\r') ≡ false
    → length line ≡ 4096
    → receive line c ≡ (none, [])
unfolding receive
receive_overlong line c n r h =
    let grown = length-append line (c ∷ []) in
    let long : ltb 4096 (length (line ++ (c ∷ []))) ≡ true = ground arith in rw (n, r, long) refl

receive_cr :
    (line : Bytes) (c : ℕ)
    → (c == b'\n') ≡ false
    → (c == b'\r') ≡ true
    → receive line c ≡ (none, line)
unfolding receive
receive_cr line c n r = rw (n, r) refl

client_loop-append :
    (l rest line : Bytes)
    → has_byte b'\n' l ≡ false
    → length line + length (without_cr l) ≤ 4096
    → client_loop line (l ++ rest) ≡ client_loop (line ++ without_cr l) rest
unfolding client_loop
client_loop-append [] rest line plain fits = ap (λ x. client_loop x rest) (sym (append_none line))
client_loop-append (c ∷ cs) rest line plain fits =
    let n : (c == b'\n') ≡ false = ground arith in
    let plain' : has_byte b'\n' cs ≡ false = ground arith in
    elim (Bool-cases (c == b'\r')) [
      | inl r ↦
          rw (receive_cr line c n r, r) (client_loop-append cs rest line plain' (rw r at fits))
      | inr r ↦
          let fits' : length line + suc (length (without_cr cs)) ≤ 4096 = rw r at fits in
          rw (receive_plain line c n r (omega arith), r)
            (client_loop-append cs rest (line ++ (c ∷ [])) plain'
                (omega (arith, length-append line (c ∷ [])))
              ∙ ap (λ x. client_loop x rest) (append_assoc line (c ∷ []) (without_cr cs)))
    ]

-- A line without line ends that has at most 4096 bytes besides its carriage returns is handled once,
-- without them, and what follows it is cut into lines as if it came first.
pub client_loop-line :
    (l rest : Bytes)
    → has_byte b'\n' l ≡ false
    → length (without_cr l) ≤ 4096
    → client_loop [] (l ++ (b'\n' ∷ rest))
      ≡ (without_cr l ∷ (client_loop [] rest).0, (client_loop [] rest).1)
client_loop-line l rest plain fits =
    client_loop-append l (b'\n' ∷ rest) [] plain (omega arith) ∙ unfold client_loop in refl

-- Lines of at most 4096 bytes.
abbrev pub AreShort : List Bytes → Type 0
AreShort [] = Unit {0}
AreShort (l ∷ ls) = (length l ≤ 4096) × AreShort ls

abbrev IsShort : Option Bytes → Type 0
IsShort none = Unit {0}
IsShort (some l) = length l ≤ 4096

handled-AreShort :
    (o : Option Bytes) (ls : List Bytes) → IsShort o → AreShort ls → AreShort (handled o ls)
handled-AreShort none ls h s = s
handled-AreShort (some l) ls h s = (h, s)

push_short : (line : Bytes) (c : ℕ) → length (push line c) ≤ 4096
push_short line c = elim (Bool-cases (ltb 4096 (length (line ++ (c ∷ []))))) [
  | inl e ↦ rw e (omega arith)
  | inr e ↦ rw e (ground arith)
]

receive-AreShort :
    (line : Bytes) (c : ℕ)
    → length line ≤ 4096
    → IsShort (receive line c).0 × (length (receive line c).1 ≤ 4096)
unfolding receive
receive-AreShort line c h = elim (Bool-cases (c == b'\n')) [
  | inl n ↦ rw n (h, omega arith)
  | inr n ↦ elim (Bool-cases (c == b'\r')) [
    | inl r ↦ rw (n, r) (tt, h)
    | inr r ↦ rw (n, r) (tt, push_short line c)
  ]
]

-- Every line that is handled, and what is kept, has at most 4096 bytes.
pub client_loop-AreShort :
    (line input : Bytes)
    → length line ≤ 4096
    → AreShort (client_loop line input).0 × (length (client_loop line input).1 ≤ 4096)
unfolding client_loop
client_loop-AreShort line [] h = (tt, h)
client_loop-AreShort line (c ∷ cs) h =
    let (one, kept) = receive-AreShort line c h in
    let (ls, last) = client_loop-AreShort (receive line c).1 cs kept in
    (handled-AreShort (receive line c).0 (client_loop (receive line c).1 cs).0 one ls, last)

-- A byte that makes a line longer than 4096 bytes discards the line but not the rest of it: what
-- follows is taken for a new line.
pub client_loop_overlong :
    (l rest : Bytes) (c : ℕ)
    → has_byte b'\n' l ≡ false
    → length (without_cr l) ≡ 4096
    → (c == b'\n') ≡ false
    → (c == b'\r') ≡ false
    → client_loop [] (l ++ (c ∷ rest)) ≡ client_loop [] rest
unfolding client_loop
client_loop_overlong l rest c plain full a b =
    client_loop-append l (c ∷ rest) [] plain (omega arith)
    ∙ rw (receive_overlong (without_cr l) c a b full) refl
