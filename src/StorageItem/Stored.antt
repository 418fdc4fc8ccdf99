-- ===== src/StorageItem/Stored.antt =====
-- The list of contents inside an item, and the reads of a view by it, of storage_item.py.
use endstone_blockdata_api.Base.{
  ℕ, ◌<◌, ◌≡◌, refl, ◌∙◌, String, false, Option, some, List, [], ◌∷◌, ◌++◌, ◌==◌, if◌then◌else◌,
  Result, ok, map_result, arith, Result-cases, Bool-cases, string_eq, nat_eq, inl, inr,
}
use endstone_blockdata_api.Base.Int.{pos, pos_injective, int_eq}
use endstone_blockdata_api.Base.Dict
use endstone_blockdata_api.Base.Dict.{lookup-insert}
use endstone_blockdata_api.Base.Sort.{sort}
use endstone_blockdata_api.Nbt.{
  Value, int, ItemNbt, as_int, get_first, compound, sequence, as_dict-compound, as_list-sequence,
}
use endstone_blockdata_api.StorageItem.Rules.{int_below}
use endstone_blockdata_api.StorageItem.Reading.{
  tag, has, contents, slot_of, storage_item_contents_key,
}
use endstone_blockdata_api.StorageItem.View.{
  StorageItemView, StorageItemEntry, put_tag, put_contents, open_tag, contents_in, mutable_contents,
  read_entry, by_slot, entries_of, check_slot, find, get_item,
}
use endstone_blockdata_api.StorageItem.Slots.{
  Reads, map_result-Reads, Reads-map_result, others, find-sort, find-others, find-append,
  find-append_other,
}

pub tag-is-not-user_data : ◌==◌ {A = String} "tag" "user_data" ≡ false
unfolding string_eq
tag-is-not-user_data = refl

pub tag-put_tag : (inner item : ItemNbt) → tag (put_tag inner item) ≡ some inner
unfolding tag put_tag has get_first
tag-put_tag inner item = ground (
  arith,
  as_dict-compound inner,
  tag-is-not-user_data,
  lookup-insert "tag" "tag" (compound inner) item,
  lookup-insert "tag" "user_data" (compound inner) item,
  lookup-insert "user_data" "user_data" (compound inner) item,
)

pub contents-put_contents :
    (values : List Value) (inner item : ItemNbt)
    → contents (put_contents values inner item) ≡ some values
unfolding contents put_contents
contents-put_contents values inner item = ground (
  arith,
  as_list-sequence values,
  tag-put_tag (Dict.insert storage_item_contents_key (sequence values) inner) item,
  lookup-insert storage_item_contents_key storage_item_contents_key (sequence values) inner,
)

-- The list that an edit starts from is the one that is read.
pub mutable_contents-contents :
    (item ready inner : ItemNbt) (values : List Value)
    → mutable_contents false item ≡ ok (ready, inner, values)
    → contents item ≡ some values
unfolding mutable_contents open_tag contents_in contents
mutable_contents-contents item ready inner values h = ground (arith, h)

-- A view whose entries can be read, by the values in its list.
pub entries_of-Reads :
    (v : StorageItemView) (values : List Value) (es : List StorageItemEntry)
    → contents v.item ≡ some values
    → entries_of v ≡ ok es
    → (unsorted : List StorageItemEntry) × Reads values unsorted × (sort by_slot unsorted ≡ es)
unfolding entries_of
entries_of-Reads v values es found h = elim (Result-cases (map_result read_entry values)) [
  | inl (unsorted, read) ↦
      (unsorted, Reads-map_result values unsorted read, ground (arith, found, read, h))
  | inr (e, raised) ↦ ground (arith, found, raised, h)
]

pub Reads-entries_of :
    (v : StorageItemView) (values : List Value) (es : List StorageItemEntry)
    → contents v.item ≡ some values
    → Reads values es
    → entries_of v ≡ ok (sort by_slot es)
unfolding entries_of
Reads-entries_of v values es found reads = ground (arith, found, map_result-Reads values es reads)

-- A read of a view whose entries can be read.
pub get_item-eq_find :
    (v : StorageItemView) (es : List StorageItemEntry) (j : ℕ)
    → entries_of v ≡ ok (sort by_slot es)
    → j < v.rules.slot_capacity
    → get_item v (int (pos j)) ≡ ok (find (pos j) es)
unfolding get_item check_slot int_below
get_item-eq_find v es j read below = ground (arith, read, below, find-sort (pos j) es)

-- `get_item` after an edit that left this list.
pub get_item-edited :
    (v : StorageItemView) (values : List Value) (es : List StorageItemEntry) (inner ready : ItemNbt)
    (j : ℕ)
    → Reads values es
    → j < v.rules.slot_capacity
    → get_item (record v { item = put_contents values inner ready }) (int (pos j))
      ≡ ok (find (pos j) es)
get_item-edited v values es inner ready j reads below =
    let w : StorageItemView = record v { item = put_contents values inner ready } in
    get_item-eq_find w es j
      (Reads-entries_of w values es (contents-put_contents values inner ready) reads) below

pub check_slot-below :
    (v : StorageItemView) (slot : Value) (i : ℕ)
    → check_slot v slot ≡ ok i
    → i < v.rules.slot_capacity
unfolding check_slot int_below
check_slot-below v slot i h = ground (arith, h)

pub by_number :
    (i j : ℕ) (new old : Option ItemNbt) (read : Result (Option ItemNbt))
    → read ≡ ok old
    → ok (if pos i == pos j then new else old) ≡ (if i == j then ok new else read)
by_number i j new old read h = ground (arith, h, pos_injective i j)

-- What `set_item` stores.
abbrev pub stored_item : ℕ → ItemNbt → ItemNbt
stored_item i item = Dict.insert "Slot" (int (pos i)) item

abbrev pub stored_entry : ℕ → ItemNbt → StorageItemEntry
stored_entry i item = record { slot = pos i; item = stored_item i item }

pub read_entry-stored_item :
    (i : ℕ) (item : ItemNbt) → read_entry (compound (stored_item i item)) ≡ ok (stored_entry i item)
unfolding read_entry slot_of get_first as_int
read_entry-stored_item i item =
    ground
      (arith, as_dict-compound (stored_item i item), lookup-insert "Slot" "Slot" (int (pos i)) item)

-- The new entry is found in its slot, and the others where they were.
pub find-edited :
    (i : ℕ) (item : ItemNbt) (j : ℕ) (es : List StorageItemEntry)
    → find (pos j) (sort by_slot (others (pos i) es ++ (stored_entry i item ∷ [])))
      ≡ (if pos i == pos j then some (stored_item i item) else find (pos j) es)
unfolding find
find-edited i item j es = elim (Bool-cases (pos i == pos j)) [
  | inl same ↦
      find-sort (pos j) (others (pos i) es ++ (stored_entry i item ∷ []))
      ∙ ground (
        arith,
        same,
        find-others (pos i) (pos j) es,
        find-append (pos j) (others (pos i) es) (stored_entry i item),
      )
  | inr differ ↦
      find-sort (pos j) (others (pos i) es ++ (stored_entry i item ∷ []))
      ∙ ground (
        arith,
        differ,
        find-others (pos i) (pos j) es,
        find-append_other (pos j) (others (pos i) es) (stored_entry i item),
      )
]
