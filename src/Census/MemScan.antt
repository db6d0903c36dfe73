-- ===== src/Census/MemScan.antt =====
-- The scan of the whole RDRAM for text runs (`pkmnstadium_memscan` of src/main/diagnostics.cpp).
use pocket_monsters_stadium.Prelude.{
  ℕ, zero, suc, ◌+◌, ◌-◌, ◌≤◌, ◌<◌, ◌≡◌, ◌≢◌, refl, sym, ap, Bool, true, false, ◌||◌, ◌&&◌, not,
  List, [], ◌∷◌, Option, none, some, arith, ltb, leb, if◌then◌else◌, Bytes, length, Bool-cases, inl,
  inr,
}
use mathlib.Core.Path.{subst}
use pocket_monsters_stadium.Memory.{Rdram, rdram_size, byte_at, bytes_from, textish}

-- sizeof(buf)
abbrev pub run_cap : ℕ
run_cap = 2048

-- The bytes from `p` on that are text, at most `left`. Addresses are counted from 0x80000000.
unfoldable pub text_run : Rdram → ℕ → ℕ → Bytes
text_run rdram p zero = []
text_run rdram p (suc left) =
    let rest = text_run rdram (p + 1) left in
    let c = byte_at rdram p in if ltb p rdram_size && textish c then c ∷ rest else []

unfoldable pub has_jp : Bytes → Bool
has_jp [] = false
has_jp (c ∷ cs) = leb 0x80 c || has_jp cs

-- A line of the log: the address and the bytes.
abbrev pub Hit : Type 0
Hit = ℕ × Bytes

abbrev pub report : ℕ → ℕ → Bytes → Option (List Hit) → Option (List Hit)
report minlen a b none = none
report minlen a b (some hits) =
    if leb minlen (length b) && has_jp b then some ((a, b) ∷ hits) else some hits

-- The loop from `a` on; `none` when the fuel runs out. The run's end, and one byte more, is skipped.
unfoldable pub scan : Rdram → ℕ → ℕ → ℕ → Option (List Hit)
unfolding text_run has_jp
scan rdram minlen zero a = none
scan rdram minlen (suc fuel) a =
    let b = text_run rdram a run_cap in
    let past = scan rdram minlen fuel (a + 1) in
    let next = scan rdram minlen fuel (a + length b + 1) in
    if not (ltb a rdram_size)
    then some []
    else if not (textish (byte_at rdram a))
    then past
    else report minlen a b next

unfoldable pub memscan : Rdram → ℕ → Option (List Hit)
unfolding scan
memscan rdram minlen = scan rdram (if ltb minlen 4 then 4 else minlen) (rdram_size + 1) 0

abbrev pub AllText : Bytes → Type 0
AllText [] = Unit {0}
AllText (c ∷ cs) = (textish c ≡ true) × AllText cs

-- What is reported of an address: bytes of RDRAM that stand there, all of them text, with a Japanese
-- one among them.
pub record IsHit (rdram : Rdram) (minlen : ℕ) (a : ℕ) (b : Bytes) : Type 0 where
  pub inside : a + length b ≤ rdram_size
  pub there : bytes_from rdram a (length b) ≡ b
  pub text : AllText b
  pub long : minlen ≤ length b
  pub short : length b ≤ run_cap
  pub japanese : has_jp b ≡ true

-- The hits lie from `a` on, in order, each behind the one before.
abbrev pub AreHits : Rdram → ℕ → ℕ → List Hit → Type 0
AreHits rdram minlen a [] = Unit {0}
AreHits rdram minlen a ((p, b) ∷ hits) =
    (a ≤ p) × IsHit rdram minlen p b × AreHits rdram minlen (p + length b + 1) hits

text_run_lem :
    (rdram : Rdram) (n p : ℕ)
    → p ≤ rdram_size
    → (p + length (text_run rdram p n) ≤ rdram_size)
      × (bytes_from rdram p (length (text_run rdram p n)) ≡ text_run rdram p n)
      × AllText (text_run rdram p n)
      × (length (text_run rdram p n) ≤ n)
unfolding text_run bytes_from
text_run_lem rdram zero p h = (omega arith, refl, tt, omega arith)
text_run_lem rdram (suc n) p h = elim (Bool-cases (ltb p rdram_size && textish (byte_at rdram p))) [
  | inr e ↦ rw e (omega arith, refl, tt, omega arith)
  | inl e ↦
      let t : textish (byte_at rdram p) ≡ true = ground arith in
      let lt : p < rdram_size = ground arith in
      let (i, same, text, le) = text_run_lem rdram n (p + 1) (omega arith) in
      rw e (omega arith, ap (λ (l : Bytes). byte_at rdram p ∷ l) same, (t, text), omega arith)
]

AreHits-weaken :
    (rdram : Rdram) (minlen a b : ℕ) (hits : List Hit)
    → a ≤ b
    → AreHits rdram minlen b hits
    → AreHits rdram minlen a hits
AreHits-weaken rdram minlen a b [] le h = tt
AreHits-weaken rdram minlen a b ((p, s) ∷ hits) le (x, y, z) = (omega arith, y, z)

-- The scan ends, and what it reports are hits.
abbrev Scans : Rdram → ℕ → ℕ → Option (List Hit) → Type 0
Scans rdram minlen a o = (hits : List Hit) × (o ≡ some hits) × AreHits rdram minlen a hits

report_lem :
    (rdram : Rdram) (minlen a : ℕ) (b : Bytes) (o : Option (List Hit))
    → a + length b ≤ rdram_size
    → bytes_from rdram a (length b) ≡ b
    → AllText b
    → length b ≤ run_cap
    → Scans rdram minlen (a + length b + 1) o
    → Scans rdram minlen a (report minlen a b o)
report_lem rdram minlen a b none i same text le (hits, e, h) = absurd (none≢some hits e)
  where
    none≢some : (l : List Hit) → none ≢ some l
    none≢some l p = cc
report_lem rdram minlen a b (some l) i same text le (hits, e, h) =
    elim (Bool-cases (leb minlen (length b) && has_jp b)) [
      | inl t ↦ rw t (
        (a, b) ∷ l,
        refl,
        (
          omega arith,
          record {
            inside = i;
            there = same;
            text = text;
            long = ground arith;
            short = le;
            japanese = ground arith;
          },
          subst (AreHits rdram minlen (a + length b + 1)) (sym (inside l hits e)) h,
        ),
      )
      | inr t ↦ rw t (
        l,
        refl,
        AreHits-weaken rdram minlen a (a + length b + 1) l (omega arith)
            (subst (AreHits rdram minlen (a + length b + 1)) (sym (inside l hits e)) h),
      )
    ]
  where
    inside : (x y : List Hit) → some x ≡ some y → x ≡ y
    inside x y p = cc

scan_lem :
    (rdram : Rdram) (minlen fuel a : ℕ)
    → rdram_size - a < fuel
    → Scans rdram minlen a (scan rdram minlen fuel a)
unfolding scan
scan_lem rdram minlen zero a h = absurd (omega arith)
scan_lem rdram minlen (suc fuel) a h = elim (Bool-cases (not (ltb a rdram_size))) [
  | inl e ↦ rw e ([], refl, tt)
  | inr e ↦ elim (Bool-cases (not (textish (byte_at rdram a)))) [
    | inl t ↦
        let lt : a < rdram_size = ground arith in
        let (hits, p, q) = scan_lem rdram minlen fuel (a + 1) (omega arith) in
        rw (e, t) (hits, p, AreHits-weaken rdram minlen a (a + 1) hits (omega arith) q)
    | inr t ↦
        let lt : a < rdram_size = ground arith in
        let b = text_run rdram a run_cap in
        let (i, same, text, le) = text_run_lem rdram run_cap a (omega arith) in
        rw (e, t)
          (report_lem rdram minlen a b _ i same text le
            (scan_lem rdram minlen fuel (a + length b + 1) (omega arith)))
  ]
]

-- The scan ends for every memory, and reports, in the order of their addresses and without overlap,
-- runs that lie in RDRAM, are text throughout and Japanese in part, and have at least the minimal length,
-- never under 4, and at most 2048 bytes.
pub memscan_lem :
    (rdram : Rdram) (minlen : ℕ)
    → (hits : List Hit) × (memscan rdram minlen ≡ some hits)
      × AreHits rdram (if ltb minlen 4 then 4 else minlen) 0 hits
unfolding memscan
memscan_lem rdram minlen =
    scan_lem rdram (if ltb minlen 4 then 4 else minlen) (rdram_size + 1) 0 (omega arith)
