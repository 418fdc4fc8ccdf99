-- ===== src/StorageItem/Slots.antt =====
-- The lists that `StorageItemView` of storage_item.py edits, and the entries read from them.
use endstone_blockdata_api.Base.{
  ℕ, ◌≡◌, ◌≢◌, refl, ◌∙◌, subst, none, List, [], ◌∷◌, ◌++◌, ◌==◌, if◌then◌else◌, ok, map_result,
  map_result-cons, arith, string_eq,
}
use endstone_blockdata_api.Base.Int.{ℤ, int_eq}
use endstone_blockdata_api.Base.Sort.{place, sort}
use endstone_blockdata_api.Nbt.{Value, as_int}
use endstone_blockdata_api.Nbt.Equal.{is_int}
use endstone_blockdata_api.StorageItem.Reading.{slot_of}
use endstone_blockdata_api.StorageItem.View.{
  StorageItemEntry, read_entry, by_slot, find, in_slot, without, slot_key, by_key,
}

-- The values are entries with a slot each, and these are they.
abbrev pub Reads : List Value → List StorageItemEntry → Type 0
Reads [] [] = Unit
Reads (v ∷ vs) (e ∷ es) = (read_entry v ≡ ok e) × Reads vs es
Reads [] (e ∷ es) = ⊥
Reads (v ∷ vs) [] = ⊥

pub map_result-Reads :
    (vs : List Value) (es : List StorageItemEntry) → Reads vs es → map_result read_entry vs ≡ ok es
unfolding map_result
map_result-Reads [] [] h = refl
map_result-Reads [] (e ∷ es) h = absurd h
map_result-Reads (v ∷ vs) [] h = absurd h
map_result-Reads (v ∷ vs) (e ∷ es) h = ground (arith, h.0, map_result-Reads vs es h.1)

pub Reads-map_result :
    (vs : List Value) (es : List StorageItemEntry) → map_result read_entry vs ≡ ok es → Reads vs es
unfolding map_result
Reads-map_result [] [] h = tt
Reads-map_result [] (e ∷ es) h = ground (arith, h)
Reads-map_result (v ∷ vs) es h =
    let (e, rest, head, tail, same) = map_result-cons read_entry v vs es h in
    subst (Reads (v ∷ vs)) same (head, Reads-map_result vs rest tail)

read_entry-slot :
    (v : Value) (e : StorageItemEntry) (capacity : ℕ)
    → read_entry v ≡ ok e
    → slot_key capacity v ≡ e.slot
unfolding read_entry slot_key
read_entry-slot v e capacity h = ground (arith, h)

read_entry-in_slot :
    (v : Value) (e : StorageItemEntry) (slot : ℤ)
    → read_entry v ≡ ok e
    → in_slot slot v ≡ (e.slot == slot)
unfolding read_entry in_slot slot_of as_int is_int
read_entry-in_slot v e slot h = ground (arith, h)

-- The entries that are left.
abbrev pub others : ℤ → List StorageItemEntry → List StorageItemEntry
others slot [] = []
others slot (e ∷ es) = let rest = others slot es in if e.slot == slot then rest else e ∷ rest

pub Reads-without :
    (slot : ℤ) (vs : List Value) (es : List StorageItemEntry)
    → Reads vs es
    → Reads (without slot vs) (others slot es)
unfolding without
Reads-without slot [] [] h = tt
Reads-without slot [] (e ∷ es) h = absurd h
Reads-without slot (v ∷ vs) [] h = absurd h
Reads-without slot (v ∷ vs) (e ∷ es) h =
    ground (arith, h.0, Reads-without slot vs es h.1, read_entry-in_slot v e slot h.0)

pub Reads-append :
    (vs : List Value) (es : List StorageItemEntry) (v : Value) (e : StorageItemEntry)
    → Reads vs es
    → read_entry v ≡ ok e
    → Reads (vs ++ (v ∷ [])) (es ++ (e ∷ []))
Reads-append [] [] v e h last = (last, tt)
Reads-append [] (f ∷ es) v e h last = absurd h
Reads-append (w ∷ vs) [] v e h last = absurd h
Reads-append (w ∷ vs) (f ∷ es) v e h last = (h.0, Reads-append vs es v e h.1 last)

Reads-place :
    (capacity : ℕ) (v : Value) (e : StorageItemEntry) (vs : List Value) (es : List StorageItemEntry)
    → read_entry v ≡ ok e
    → Reads vs es
    → Reads (place (by_key capacity) v vs) (place by_slot e es)
unfolding place
Reads-place capacity v e [] [] head h = (head, tt)
Reads-place capacity v e [] (f ∷ es) head h = absurd h
Reads-place capacity v e (w ∷ vs) [] head h = absurd h
Reads-place capacity v e (w ∷ vs) (f ∷ es) head h = ground (
  arith,
  head,
  h.0,
  h.1,
  Reads-place capacity v e vs es head h.1,
  read_entry-slot v e capacity head,
  read_entry-slot w f capacity h.0,
)

pub Reads-sort :
    (capacity : ℕ) (vs : List Value) (es : List StorageItemEntry)
    → Reads vs es
    → Reads (sort (by_key capacity) vs) (sort by_slot es)
unfolding sort
Reads-sort capacity [] [] h = tt
Reads-sort capacity [] (e ∷ es) h = absurd h
Reads-sort capacity (v ∷ vs) [] h = absurd h
Reads-sort capacity (v ∷ vs) (e ∷ es) h =
    Reads-place capacity v e (sort (by_key capacity) vs) (sort by_slot es) h.0
      (Reads-sort capacity vs es h.1)

-- Sorting does not change which entry is the first in a slot.
find-place :
    (slot : ℤ) (e : StorageItemEntry) (es : List StorageItemEntry)
    → find slot (place by_slot e es) ≡ find slot (e ∷ es)
unfolding find place
find-place slot e [] = refl
find-place slot e (f ∷ es) = ground (arith, find-place slot e es)

pub find-sort : (slot : ℤ) (es : List StorageItemEntry) → find slot (sort by_slot es) ≡ find slot es
unfolding sort find
find-sort slot [] = refl
find-sort slot (e ∷ es) = find-place slot e (sort by_slot es) ∙ ground (arith, find-sort slot es)

pub find-others :
    (slot : ℤ) (j : ℤ) (es : List StorageItemEntry)
    → find j (others slot es) ≡ (if slot == j then none else find j es)
unfolding find
find-others slot j [] = ground arith
find-others slot j (e ∷ es) = ground (arith, find-others slot j es)

pub find-append :
    (j : ℤ) (es : List StorageItemEntry) (e : StorageItemEntry)
    → find j es ≡ none
    → find j (es ++ (e ∷ [])) ≡ find j (e ∷ [])
unfolding find
find-append j [] e h = refl
find-append j (f ∷ es) e h = ground (arith, find-append j es e)

pub find-append_other :
    (j : ℤ) (es : List StorageItemEntry) (e : StorageItemEntry)
    → e.slot ≢ j
    → find j (es ++ (e ∷ [])) ≡ find j es
unfolding find
find-append_other j [] e h = ground (arith, h)
find-append_other j (f ∷ es) e h = ground (arith, find-append_other j es e h)
