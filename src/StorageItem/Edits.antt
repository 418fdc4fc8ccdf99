-- ===== src/StorageItem/Edits.antt =====
-- What `get_item` of storage_item.py returns after each edit of a view.
use endstone_blockdata_api.Base.{
  ℕ, ◌<◌, ◌≡◌, ap, sym, ◌∙◌, subst, false, none, some, List, [], ◌∷◌, ◌++◌, ◌==◌, if◌then◌else◌, ok,
  ok_injective, >>=-eq-ok, arith, string_eq, nat_eq,
}
use endstone_blockdata_api.Base.Int.{pos, int_eq}
use endstone_blockdata_api.Base.Sort.{sort}
use endstone_blockdata_api.Nbt.{Value, int, ItemNbt, as_dict, compound}
use endstone_blockdata_api.StorageItem.View.{
  StorageItemView, StorageItemEntry, put_contents, mutable_contents, by_slot, by_key, entries_of,
  check_slot, find, get_item, without, valid_item, set_item, clear_item,
}
use endstone_blockdata_api.StorageItem.Slots.{
  Reads, others, Reads-without, Reads-append, Reads-sort, find-others,
}
use endstone_blockdata_api.StorageItem.Stored.{
  contents-put_contents, mutable_contents-contents, entries_of-Reads, Reads-entries_of,
  get_item-eq_find, get_item-edited, by_number, stored_item, stored_entry, read_entry-stored_item,
  find-edited,
}

-- The entries before an edit, as they stand in the list.
opened :
    (v : StorageItemView) (es : List StorageItemEntry) (ready inner : ItemNbt) (values : List Value)
    → entries_of v ≡ ok es
    → mutable_contents false v.item ≡ ok (ready, inner, values)
    → (unsorted : List StorageItemEntry) × Reads values unsorted
      × ((j : ℕ)
          → j < v.rules.slot_capacity
          → get_item v (int (pos j)) ≡ ok (find (pos j) unsorted))
opened v es ready inner values read start =
    let (unsorted, reads, same) =
      entries_of-Reads v values es (mutable_contents-contents v.item ready inner values start)
        read in
    (unsorted, reads, λ j below. get_item-eq_find v unsorted j (read ∙ ap ok (sym same)) below)

-- After a `clear_item` that succeeds on a view whose entries can be read, the slot reads as empty,
-- and every other slot in range reads as before.
pub clear_item-get_item :
    (v w : StorageItemView) (slot : Value) (es : List StorageItemEntry)
    → entries_of v ≡ ok es
    → clear_item v slot ≡ ok w
    → (i : ℕ) × (check_slot v slot ≡ ok i)
      × ((j : ℕ)
          → j < v.rules.slot_capacity
          → get_item w (int (pos j)) ≡ (if i == j then ok none else get_item v (int (pos j))))
unfolding clear_item
clear_item-get_item v w slot es read h =
    let (i, checked, h) = >>=-eq-ok (check_slot v slot) _ h in
    let ((ready, inner, values), start, h) = >>=-eq-ok (mutable_contents false v.item) _ h in
    let (unsorted, reads, before) = opened v es ready inner values read start in
    let left = Reads-without (pos i) values unsorted reads in
    (
      i,
      checked,
      λ j below.
          subst
            (λ w. get_item w (int (pos j)) ≡ (if i == j then ok none else get_item v (int (pos j))))
            (ok_injective _ w h)
            (get_item-edited v (without (pos i) values) (others (pos i) unsorted) inner ready j left
                below
              ∙ ap ok (find-others (pos i) (pos j) unsorted)
              ∙ by_number i j none (find (pos j) unsorted) (get_item v (int (pos j)))
                  (before j below)),
    )

-- The list that `set_item` leaves, as entries.
edited_list :
    (v : StorageItemView) (i : ℕ) (item : ItemNbt) (values : List Value)
    (es : List StorageItemEntry)
    → Reads values es
    → Reads
        (sort
          (by_key v.rules.slot_capacity)
          (without (pos i) values ++ (compound (stored_item i item) ∷ [])))
        (sort by_slot (others (pos i) es ++ (stored_entry i item ∷ [])))
edited_list v i item values es reads =
    Reads-sort v.rules.slot_capacity
      (without (pos i) values ++ (compound (stored_item i item) ∷ []))
      (others (pos i) es ++ (stored_entry i item ∷ []))
      (Reads-append (without (pos i) values) (others (pos i) es) (compound (stored_item i item))
        (stored_entry i item) (Reads-without (pos i) values es reads)
        (read_entry-stored_item i item))

valid_item-ok :
    (value : Value) (item : ItemNbt) → valid_item value ≡ ok item → as_dict value ≡ some item
unfolding valid_item
valid_item-ok value item h = ground (arith, h)

-- After a `set_item` that succeeds on a view whose entries can be read, the slot reads as the
-- given item with its `Slot` entry set, and every other slot in range reads as before.
pub set_item-get_item :
    (v w : StorageItemView) (slot value : Value) (es : List StorageItemEntry)
    → entries_of v ≡ ok es
    → set_item v slot value ≡ ok w
    → (i : ℕ) × (item : ItemNbt) × (check_slot v slot ≡ ok i)
      × (as_dict value ≡ some item)
      × ((j : ℕ)
          → j < v.rules.slot_capacity
          → get_item w (int (pos j))
            ≡ (if i == j then ok (some (stored_item i item)) else get_item v (int (pos j))))
unfolding set_item
set_item-get_item v w slot value es read h =
    let (i, checked, h) = >>=-eq-ok (check_slot v slot) _ h in
    let (item, accepted, h) = >>=-eq-ok (valid_item value) _ h in
    let ((ready, inner, values), start, h) = >>=-eq-ok (mutable_contents false v.item) _ h in
    let (unsorted, reads, before) = opened v es ready inner values read start in
    let edited = edited_list v i item values unsorted reads in
    (
      i,
      item,
      checked,
      valid_item-ok value item accepted,
      λ j below.
          subst
            (λ w.
              get_item w (int (pos j))
              ≡ (if i == j then ok (some (stored_item i item)) else get_item v (int (pos j))))
            (ok_injective _ w h)
            (get_item-edited v _ _ inner ready j edited below
              ∙ ap ok (find-edited i item j unsorted)
              ∙ by_number i j (some (stored_item i item)) (find (pos j) unsorted)
                  (get_item v (int (pos j))) (before j below)),
    )

-- An edit that succeeds leaves a view that can be read, under the same rules.
pub set_item-readable :
    (v w : StorageItemView) (slot value : Value) (es : List StorageItemEntry)
    → entries_of v ≡ ok es
    → set_item v slot value ≡ ok w
    → ((es' : List StorageItemEntry) × (entries_of w ≡ ok es')) × (w.rules ≡ v.rules)
unfolding set_item
set_item-readable v w slot value es read h =
    let (i, checked, h) = >>=-eq-ok (check_slot v slot) _ h in
    let (item, accepted, h) = >>=-eq-ok (valid_item value) _ h in
    let ((ready, inner, values), start, h) = >>=-eq-ok (mutable_contents false v.item) _ h in
    let (unsorted, reads, before) = opened v es ready inner values read start in
    let edited = edited_list v i item values unsorted reads in
    let same = ok_injective _ w h in
    (
      subst (λ w. (es' : List StorageItemEntry) × (entries_of w ≡ ok es')) same
          (
            _,
            Reads-entries_of (record v { item = put_contents _ inner ready }) _ _
                (contents-put_contents _ inner ready) edited,
          ),
      ap (λ w. w.rules) (sym same),
    )
