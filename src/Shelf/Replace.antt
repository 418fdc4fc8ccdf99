-- ===== src/Shelf/Replace.antt =====
-- `replace_items`: all slots of a shelf in one patch.
use mathlib.Core.Option.{or_else}
use endstone_blockdata_api.Base.{
  ℕ, zero, suc, ◌+◌, ◌<◌, ◌≡◌, ap, sym, subst, ◌∙◌, true, ◌⊎◌, inl, inr, Option, none, some, List,
  [], ◌∷◌, contains, arith, if◌then◌else◌, ok, map_result, >>=-eq-ok, ok_injective, Option-cases,
}
use endstone_blockdata_api.Base.Int.{ℤ, pos, int_eq}
use endstone_blockdata_api.Base.Lists.{length, get_elem?}
use endstone_blockdata_api.Base.Dict
use endstone_blockdata_api.Base.Dict.{Dict, NodupKeys}
use endstone_blockdata_api.Nbt.{Value, null, int, ItemNbt, as_dict, as_list}
use endstone_blockdata_api.Model.{BlockPatch}
use endstone_blockdata_api.Memory.Inventory.{patched_item}
use endstone_blockdata_api.Shelf.{
  ShelfView, capacity, among, check_update, check_removal, patch_items, present, absent,
  replace_items, shelf_patch,
}
use endstone_blockdata_api.Shelf.Patches.{contains-removals, IsShelfPatch, patch_items-IsShelfPatch}
use endstone_blockdata_api.Shelf.Listed.{
  wanted, present-or-absent, Checked-cons, present-NodupKeys, lookup-present, among-absent,
}

replace_items-parts :
    (v : ShelfView) (value : Value) (p : BlockPatch)
    → replace_items v value ≡ ok p
    → (items : List Value) × (as_list value ≡ some items)
      × (length items ≡ capacity v)
      × (patch_items v (present 0 items) (absent 0 items) ≡ ok p)
unfolding replace_items
replace_items-parts v value p h = elim (Option-cases (as_list value)) [
  | inl n ↦ absurd (ground arith)
  | inr (items, e) ↦ (items, e, ground arith, ground arith)
]

-- A checked list has `None` or a compound at each place.
null-or-wanted :
    (v : ShelfView) (removals : List Value) (k i : ℕ) (items : List Value) (ups : Dict ℤ ItemNbt)
    → map_result (check_update v removals) (present k items) ≡ ok ups
    → i < length items
    → (get_elem? items i ≡ some null) ⊎ ((y : ItemNbt) × (wanted items i ≡ some y))
null-or-wanted v removals k i [] ups c h = elim h [ ]
null-or-wanted v removals k zero (w ∷ items) ups c h = elim (present-or-absent k w items) [
  | inl (n, p, a) ↦ inl (ap some n)
  | inr (n, p, a) ↦
      let (y, ys, item, tail, same) =
        Checked-cons v removals k w (present (suc k) items) ups
          (subst (λ l. map_result (check_update v removals) l ≡ ok ups) p c) in
      inr (y, item)
]
null-or-wanted v removals k (suc i) (w ∷ items) ups c h = elim (present-or-absent k w items) [
  | inl (n, p, a) ↦
      null-or-wanted v removals (suc k) i items ups
        (subst (λ l. map_result (check_update v removals) l ≡ ok ups) p c) (omega arith)
  | inr (n, p, a) ↦
      let (y, ys, item, tail, same) =
        Checked-cons v removals k w (present (suc k) items) ups
          (subst (λ l. map_result (check_update v removals) l ≡ ok ups) p c) in
      null-or-wanted v removals (suc k) i items ys tail (omega arith)
]

-- The item that a slot of the shelf holds after the patch is the one wanted there.
wanted-or_kept :
    (v : ShelfView) (items : List Value) (ups : Dict ℤ ItemNbt) (cleared : List ℤ) (i : ℕ)
    (before : Option ItemNbt)
    → map_result (check_update v (absent 0 items)) (present 0 items) ≡ ok ups
    → map_result (check_removal v) (absent 0 items) ≡ ok cleared
    → i < length items
    → or_else (Dict.lookup (pos i) ups) (if contains cleared (pos i) then none else before)
      ≡ wanted items i
unfolding or_else as_dict
wanted-or_kept v items ups cleared i before valid gone h =
    let zero_eq : 0 + i ≡ i = omega arith in
    let found : Dict.lookup (pos i) ups ≡ wanted items i =
      ap (λ m. Dict.lookup (pos m) ups) (sym zero_eq)
      ∙ lookup-present v (absent 0 items) 0 i items ups valid in
    elim (null-or-wanted v (absent 0 items) 0 i items ups valid h) [
      | inl n ↦
          let removed : among (int (pos i)) (absent 0 items) ≡ true =
            ap (λ m. among (int (pos m)) (absent 0 items)) (sym zero_eq)
            ∙ among-absent 0 i items h n in
          ground
            (arith, found, contains-removals v (pos i) (absent 0 items) cleared gone, removed, n)
      | inr (y, e) ↦ ground (arith, found, e)
    ]

-- `replace_items` accepts only a list of the shelf's exact length. Its patch is one that the shelf
-- may be sent, updates no slot twice, and leaves in each slot of the shelf what the list has
-- there: an item, or an empty slot for `None`.
pub replace_items-ok :
    (v : ShelfView) (value : Value) (p : BlockPatch) (i : ℕ) (before : Option ItemNbt)
    → replace_items v value ≡ ok p
    → i < capacity v
    → (items : List Value) × (as_list value ≡ some items)
      × (length items ≡ capacity v)
      × IsShelfPatch v p
      × NodupKeys p.inventory_updates
      × (patched_item p (pos i) before ≡ wanted items i)
unfolding patch_items
replace_items-ok v value p i before h below =
    let (items, known, size, built) = replace_items-parts v value p h in
    let (ups, valid, rest) =
      >>=-eq-ok (map_result (check_update v (absent 0 items)) (present 0 items)) _ built in
    let (cleared, gone, last) = >>=-eq-ok (map_result (check_removal v) (absent 0 items)) _ rest in
    let same = ok_injective (shelf_patch v ups cleared) p last in
    (
      items,
      known,
      size,
      patch_items-IsShelfPatch v (present 0 items) (absent 0 items) p built,
      subst (λ q. NodupKeys q.inventory_updates) same
          (present-NodupKeys v (absent 0 items) 0 items ups valid),
      subst (λ q. patched_item q (pos i) before ≡ wanted items i) same
          (wanted-or_kept v items ups cleared i before valid gone (omega arith)),
    )
