-- ===== src/Census/Inventory.antt =====
-- The inventory of distinct source strings (`strinv_upsert` of src/main/diagnostics.cpp).
pub mod Laws
use mathlib.Core.Option
use pocket_monsters_stadium.Prelude.{
  ℕ, zero, suc, ◌+◌, ◌%◌, ◌^◌, Bool, true, false, List, [], ◌∷◌, Option, none, some, ◌==◌,
  if◌then◌else◌, Bytes, length, set,
}
use pocket_monsters_stadium.Translate.Fnv.{fnv1a}
use pocket_monsters_stadium.Census.Slots.{entry_at}

-- StrInvEntry; `len` is the length of the bytes, and an unused slot is `none`.
pub record StrInvEntry : Type 0 where
  pub key : ℕ
  pub bytes : Bytes
  pub a0 : ℕ
  pub a1 : ℕ
  pub count : ℕ

-- g_strinv and g_strinv_dropped
pub record Inventory : Type 0 where
  pub slots : List (Option StrInvEntry)
  pub dropped : ℕ

-- `else if (freei == kStrInvCap) { freei = i; }`
abbrev pub first_free : Option ℕ → ℕ → Option ℕ
first_free none i = some i
first_free (some j) i = some j

-- The loop over the slots from index `i`: the slot with the key, and the first unused index.
unfoldable pub scan : ℕ → List (Option StrInvEntry) → ℕ → Option ℕ → Option ℕ × Option ℕ
scan k [] i freei = (none, freei)
scan k (none ∷ xs) i freei = scan k xs (i + 1) (first_free freei i)
scan k (some e ∷ xs) i freei =
    let rest = scan k xs (i + 1) freei in if e.key == k then (some i, freei) else rest

-- `slot->a0 = a0; slot->a1 = a1; slot->count++;`
abbrev pub touch : ℕ → ℕ → StrInvEntry → StrInvEntry
touch a0 a1 e = record e { a0 = a0; a1 = a1; count = (e.count + 1) % 2 ^ 32 }

abbrev pub fresh : Bytes → StrInvEntry
fresh b = record { key = fnv1a b; bytes = b; a0 = 0; a1 = 0; count = 0 }

unfoldable pub upsert_at : Inventory → Bytes → ℕ → ℕ → Option ℕ × Option ℕ → Inventory × Bool
upsert_at inv b a0 a1 (some i, freei) = (
  record inv { slots = set inv.slots i (Option.map (touch a0 a1) (entry_at inv.slots i)) },
  false,
)
upsert_at inv b a0 a1 (none, none) = (record inv { dropped = (inv.dropped + 1) % 2 ^ 32 }, false)
upsert_at inv b a0 a1 (none, some i) =
    (record inv { slots = set inv.slots i (some (touch a0 a1 (fresh b))) }, true)

-- The flag tells whether the string was new, in which case stringdump.log is written.
unfoldable pub strinv_upsert : Inventory → Bytes → ℕ → ℕ → Inventory × Bool
unfolding scan upsert_at
strinv_upsert inv [] a0 a1 = (inv, false)
strinv_upsert inv (c ∷ cs) a0 a1 =
    upsert_at inv (c ∷ cs) a0 a1 (scan (fnv1a (c ∷ cs)) inv.slots 0 none)
