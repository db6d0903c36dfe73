-- ===== src/Census/Inventory/Laws.antt =====
-- What an upsert does to the inventory, as a map from content keys to entries.

use pocket_monsters_stadium.Prelude.{
  ℕ, ◌+◌, ◌%◌, ◌^◌, ◌≡◌, inl, inr, refl, ap, ◌∙◌, Bool, true, false, List, [], ◌∷◌, Option, none,
  some, ◌==◌, if◌then◌else◌, Bytes, arith, Bool-cases,
}
use pocket_monsters_stadium.Translate.Fnv.{fnv1a}
use pocket_monsters_stadium.Census.Slots.{
  further, find_free, find_used, entry_at, Found, find_used-Found, Room, find_free-Room,
}
use pocket_monsters_stadium.Census.Slots
use pocket_monsters_stadium.Census.Inventory.{
  StrInvEntry, Inventory, scan, touch, fresh, upsert_at, strinv_upsert,
}

abbrev pub entry_key : StrInvEntry → ℕ
entry_key e = e.key

-- The entry under a content key.
abbrev pub seen : ℕ → Inventory → Option StrInvEntry
seen k inv = Slots.lookup entry_key k inv.slots

abbrev shifted : ℕ → Option ℕ → Option ℕ
shifted i none = none
shifted i (some j) = some (i + j)

shifted-further : (i : ℕ) (o : Option ℕ) → shifted (i + 1) o ≡ shifted i (further o)
unfolding further
shifted-further i none = refl
shifted-further i (some j) = ap some (omega arith)

abbrev or_else : Option ℕ → Option ℕ → Option ℕ
or_else none o = o
or_else (some i) o = some i

further-none : (o : Option ℕ) → further o ≡ none → o ≡ none
unfolding further
further-none none h = refl
further-none (some i) h = cc

-- One pass finds what two searches find.
scan_lem :
    (k : ℕ) (xs : List (Option StrInvEntry)) (i : ℕ) (freei : Option ℕ)
    → ((scan k xs i freei).0 ≡ shifted i (find_used entry_key k xs))
      × (find_used entry_key k xs ≡ none
          → (scan k xs i freei).1 ≡ or_else freei (shifted i (find_free xs)))
unfolding scan find_used find_free
scan_lem k [] i none = (refl, λ _. refl)
scan_lem k [] i (some j) = (refl, λ _. refl)
scan_lem k (none ∷ xs) i none =
    let (p, q) = scan_lem k xs (i + 1) (some i) in
    (
      p ∙ shifted-further i _,
      λ h. q (further-none (find_used entry_key k xs) h) ∙ ap some (omega arith),
    )
scan_lem k (none ∷ xs) i (some j) =
    let (p, q) = scan_lem k xs (i + 1) (some j) in
    (p ∙ shifted-further i _, λ h. q (further-none (find_used entry_key k xs) h))
scan_lem k (some e ∷ xs) i freei = elim (Bool-cases (e.key == k)) [
  | inl t ↦ rw t (ap some (omega arith), λ h. cc)
  | inr f ↦
      let (p, q) = scan_lem k xs (i + 1) freei in
      rw f (
        p ∙ shifted-further i _,
        λ h.
            q (further-none (find_used entry_key k xs) h)
            ∙ ap (or_else freei) (shifted-further i (find_free xs)),
      )
]

shifted-zero : (o : Option ℕ) → shifted 0 o ≡ o
shifted-zero none = refl
shifted-zero (some i) = ap some (omega arith)

scan-found :
    (k : ℕ) (xs : List (Option StrInvEntry)) (i : ℕ)
    → find_used entry_key k xs ≡ some i
    → (f : Option ℕ) × (scan k xs 0 none ≡ (some i, f))
scan-found k xs i h =
    let (p, q) = scan_lem k xs 0 none in
    ((scan k xs 0 none).1, λ t. ((p ∙ shifted-zero _ ∙ h) t, (scan k xs 0 none).1))

scan-absent :
    (k : ℕ) (xs : List (Option StrInvEntry))
    → find_used entry_key k xs ≡ none
    → scan k xs 0 none ≡ (none, find_free xs)
scan-absent k xs h =
    let (p, q) = scan_lem k xs 0 none in λ t. ((p ∙ shifted-zero _ ∙ h) t, (q h ∙ shifted-zero _) t)

-- Under `k` the entry `e` is seen, and under every other key what was seen before.
abbrev pub Sees : Inventory → ℕ → StrInvEntry → Inventory → Type 0
Sees inv k e inv' = (j : ℕ) → seen j inv' ≡ (if j == k then some e else seen j inv)

-- An entry by its fields.
abbrev pub entry : ℕ → Bytes → ℕ → ℕ → ℕ → StrInvEntry
entry k b a0 a1 n = record { key = k; bytes = b; a0 = a0; a1 = a1; count = n }

-- The three outcomes of an upsert of a non-empty string, with the flag for the dump.
pub data Upserts (inv : Inventory) (b : Bytes) (a0 a1 : ℕ) : Inventory × Bool → Type 0 where
  known :
      (e : StrInvEntry) (inv' : Inventory)
      → seen (fnv1a b) inv ≡ some e
      → Sees inv (fnv1a b) (entry e.key e.bytes a0 a1 ((e.count + 1) % 2 ^ 32)) inv'
      → inv'.dropped ≡ inv.dropped
      → Upserts inv b a0 a1 (inv', false)
  inserted :
      (inv' : Inventory)
      → seen (fnv1a b) inv ≡ none
      → Sees inv (fnv1a b) (entry (fnv1a b) b a0 a1 1) inv'
      → inv'.dropped ≡ inv.dropped
      → Upserts inv b a0 a1 (inv', true)
  full :
      seen (fnv1a b) inv ≡ none
      → find_free inv.slots ≡ none
      → Upserts inv b a0 a1 (record inv { dropped = (inv.dropped + 1) % 2 ^ 32 }, false)

upsert_at-Upserts :
    (inv : Inventory) (b : Bytes) (a0 a1 : ℕ)
    → Upserts inv b a0 a1 (upsert_at inv b a0 a1 (scan (fnv1a b) inv.slots 0 none))
unfolding upsert_at
upsert_at-Upserts inv b a0 a1 =
    by_search (find_used entry_key (fnv1a b) inv.slots) refl
      (find_used-Found entry_key (fnv1a b) inv.slots)
  where
    by_room :
        (o : Option ℕ)
        → find_free inv.slots ≡ o
        → find_used entry_key (fnv1a b) inv.slots ≡ none
        → seen (fnv1a b) inv ≡ none
        → Room entry_key (fnv1a b) inv.slots o
        → Upserts inv b a0 a1 (upsert_at inv b a0 a1 (scan (fnv1a b) inv.slots 0 none))
    by_room none e h absent room = rw (scan-absent (fnv1a b) inv.slots h, e) (full absent e)
    by_room (some i) e h absent room =
        rw (scan-absent (fnv1a b) inv.slots h, e)
          (inserted _ absent (λ j. room (touch a0 a1 (fresh b)) j refl) refl)

    by_search :
        (o : Option ℕ)
        → find_used entry_key (fnv1a b) inv.slots ≡ o
        → Found entry_key (fnv1a b) inv.slots o
        → Upserts inv b a0 a1 (upsert_at inv b a0 a1 (scan (fnv1a b) inv.slots 0 none))
    by_search none h absent =
        by_room (find_free inv.slots) refl h absent
          (find_free-Room entry_key (fnv1a b) inv.slots absent)
    by_search (some i) h (e, at, sees, k, put) =
        let (f, found) = scan-found (fnv1a b) inv.slots i h in
        rw (found, at) (known e _ sees (λ j. put (touch a0 a1 e) j k) refl)

-- An upsert of a non-empty string counts one call more under its content key and notes the call's
-- arguments, with a count of 1 and the string's bytes for a new key; a new key that finds no unused slot
-- counts as dropped. No other key is seen changed, and the count of drops changes in the last case alone.
pub strinv_upsert-Upserts :
    (inv : Inventory) (c : ℕ) (cs : Bytes) (a0 a1 : ℕ)
    → Upserts inv (c ∷ cs) a0 a1 (strinv_upsert inv (c ∷ cs) a0 a1)
unfolding strinv_upsert
strinv_upsert-Upserts inv c cs a0 a1 = upsert_at-Upserts inv (c ∷ cs) a0 a1
