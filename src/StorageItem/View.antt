-- ===== src/StorageItem/View.antt =====
-- `StorageItemView` of storage_item.py: an editable copy of one storage item.
-- The code edits the list of contents in place, inside the tag of its own copy of the item; here
-- each edit writes the new list back where the code's list lives.
use endstone_blockdata_api.Base.{
  ℕ, String, Bool, true, false, not, ◌&&◌, Option, none, some, List, [], ◌∷◌, ◌++◌, ◌==◌, contains,
  if◌then◌else◌, Result, ok, err, Error, value_error, index_error, runtime_error, ◌>>=◌, map_result,
  string_eq,
}
use endstone_blockdata_api.Base.Int.{ℤ, pos, leb_ℤ, ltb_ℤ, int_eq}
use endstone_blockdata_api.Base.Dict
use endstone_blockdata_api.Base.Sort.{sort}
use endstone_blockdata_api.Nbt.{
  Value, null, int, ItemNbt, as_dict, as_list, get_first, compound, sequence,
}
use endstone_blockdata_api.Nbt.Equal.{is_int}
use endstone_blockdata_api.Model.{BlockSnapshot, BlockPatch, empty_patch}
use endstone_blockdata_api.StorageItem.Rules.{StorageItemRules, int_below}
use endstone_blockdata_api.StorageItem.Reading.{
  identifier, count, tag, has, has_tag_field, contents, is_storage_item_nbt, slot_of,
  storage_item_contents_key,
}
use endstone_blockdata_api.StorageItem.Weight.{StorageItemWeightResolver}
use endstone_blockdata_api.StorageItem.Validate.{StorageItemValidation, validate_storage_item}

-- The view's own copy of the item, and its rules.
pub record StorageItemView : Type 0 where
  pub item : ItemNbt
  pub rules : StorageItemRules

pub record StorageItemEntry : Type 0 where
  pub slot : ℤ
  pub item : ItemNbt

-- The tag that `_tag` finds, changed.
unfoldable pub put_tag : ItemNbt → ItemNbt → ItemNbt
put_tag inner item =
    if has "tag" item
    then Dict.insert "tag" (compound inner) item
    else Dict.insert "user_data" (compound inner) item

unfoldable pub put_contents : List Value → ItemNbt → ItemNbt → ItemNbt
put_contents values inner item =
    put_tag (Dict.insert storage_item_contents_key (sequence values) inner) item

-- `_tag(item, create=create)`: the item, which may have got an empty tag, and its tag.
unfoldable pub open_tag : Bool → ItemNbt → ItemNbt × Option ItemNbt
open_tag false item = (item, tag item)
open_tag true item = elim (get_first "tag" "user_data" item) [
  | none ↦ (Dict.insert "tag" (compound []) item, some [])
  | some v ↦ elim v [
    | null ↦ (Dict.insert "tag" (compound []) item, some [])
    | other ↦ (item, as_dict other)
  ]
]

abbrev pub unavailable : Error
unavailable = value_error "storage item contents are unavailable"

abbrev pub no_list : Error
no_list = value_error "storage_item_component_content must be a list"

-- `_mutable_contents`: the item with a list of contents, its tag, and the list.
unfoldable pub contents_in : Bool → ItemNbt → ItemNbt → Result (ItemNbt × ItemNbt × List Value)
contents_in create item inner = elim (Dict.lookup storage_item_contents_key inner) [
  | none ↦
      if create
      then (let filled = Dict.insert storage_item_contents_key (sequence []) inner in
          ok (put_tag filled item, filled, []))
      else err unavailable
  | some v ↦ elim (as_list v) [ none ↦ err no_list | some values ↦ ok (item, inner, values) ]
]

unfoldable pub mutable_contents : Bool → ItemNbt → Result (ItemNbt × ItemNbt × List Value)
mutable_contents create item =
    let (opened, found) = open_tag create item in
    elim found [
      | some inner ↦ contents_in create opened inner
      | none ↦
          if has_tag_field opened
          then err (value_error "storage item tag must be an NBT compound")
          else if create
          then err (runtime_error "failed to initialize storage item tag")
          else err unavailable
    ]

-- `StorageItemView(item, rules, create_if_missing=create)`
unfoldable pub open_compound : Bool → StorageItemRules → ItemNbt → Result StorageItemView
open_compound create rules item = elim (identifier item) [
  | none ↦ err (value_error "storage item must be an item compound with an identifier")
  | some name ↦
      if not (is_storage_item_nbt item) && not create
      then err (value_error "item is not a bundle or serialized storage item")
      else (do
        (ready, inner, values) ← mutable_contents create item
        ok (record { item = ready; rules = rules }))
]

unfoldable pub open_view : Bool → StorageItemRules → Value → Result StorageItemView
open_view create rules value = elim (as_dict value) [
  | none ↦ err (value_error "storage item must be an item compound with an identifier")
  | some item ↦ open_compound create rules item
]

unfoldable pub item_identifier : StorageItemView → Result String
item_identifier v = elim (identifier v.item) [
  | none ↦ err (runtime_error "storage item has no item identifier")
  | some name ↦ ok name
]

unfoldable pub read_entry : Value → Result StorageItemEntry
read_entry value = elim (as_dict value) [
  | none ↦ err (value_error "storage item entry must be an item compound")
  | some entry ↦ elim (slot_of entry) [
    | none ↦ err (value_error "storage item entry is missing a valid Slot")
    | some slot ↦ ok (record { slot = slot; item = entry })
  ]
]

abbrev pub by_slot : StorageItemEntry → StorageItemEntry → Bool
by_slot e f = leb_ℤ e.slot f.slot

-- `contents`
unfoldable pub entries_of : StorageItemView → Result (List StorageItemEntry)
entries_of v = elim (contents v.item) [
  | none ↦ err (runtime_error "storage item contents are unavailable")
  | some values ↦ do es ← map_result read_entry values; ok (sort by_slot es)
]

-- `_check_slot`: a slot that passes is returned as the number that it is.
unfoldable pub check_slot : StorageItemView → Value → Result ℕ
check_slot v slot = elim (int_below v.rules.slot_capacity slot) [
  | none ↦ err (index_error "storage item slot is outside the supported range")
  | some i ↦ ok i
]

-- The first entry in the slot.
unfoldable pub find : ℤ → List StorageItemEntry → Option ItemNbt
find slot [] = none
find slot (e ∷ es) = if e.slot == slot then some e.item else find slot es

unfoldable pub get_item : StorageItemView → Value → Result (Option ItemNbt)
get_item v slot = do i ← check_slot v slot; es ← entries_of v; ok (find (pos i) es)

-- `isinstance(entry, dict) and entry.get("Slot", entry.get("slot")) == slot`
unfoldable pub in_slot : ℤ → Value → Bool
in_slot slot value = elim (as_dict value) [
  | none ↦ false
  | some entry ↦ elim (get_first "Slot" "slot" entry) [ none ↦ false | some v ↦ is_int v slot ]
]

unfoldable pub without : ℤ → List Value → List Value
without slot [] = []
without slot (v ∷ vs) = let rest = without slot vs in if in_slot slot v then rest else v ∷ rest

-- `slot_key`
unfoldable pub slot_key : ℕ → Value → ℤ
slot_key capacity value = elim (as_dict value) [
  | none ↦ pos capacity
  | some entry ↦ elim (slot_of entry) [ none ↦ pos capacity | some slot ↦ slot ]
]

abbrev pub by_key : ℕ → Value → Value → Bool
by_key capacity v w = leb_ℤ (slot_key capacity v) (slot_key capacity w)

-- An item that passes is returned as the compound that it is.
unfoldable pub valid_item : Value → Result ItemNbt
valid_item value = elim (as_dict value) [
  | none ↦ err (value_error "storage item entry must be a valid item compound")
  | some item ↦ elim (identifier item) [
    | none ↦ err (value_error "storage item entry must be a valid item compound")
    | some name ↦ elim (count item) [
      | none ↦ err (value_error "storage item entry must be a valid item compound")
      | some n ↦ ok item
    ]
  ]
]

unfoldable pub set_item : StorageItemView → Value → Value → Result StorageItemView
set_item v slot value = do
  i ← check_slot v slot
  item ← valid_item value
  (ready, inner, values) ← mutable_contents false v.item
  let replacement = compound (Dict.insert "Slot" (int (pos i)) item)
  let edited = sort (by_key v.rules.slot_capacity) (without (pos i) values ++ (replacement ∷ []))
  ok (record v { item = put_contents edited inner ready })

unfoldable pub clear_item : StorageItemView → Value → Result StorageItemView
clear_item v slot = do
  i ← check_slot v slot
  (ready, inner, values) ← mutable_contents false v.item
  ok (record v { item = put_contents (without (pos i) values) inner ready })

-- The loop of `replace_contents`, with the slots that were given before.
unfoldable pub set_items : List ℤ → StorageItemView → List (ℤ × Value) → Result StorageItemView
set_items occupied v [] = ok v
set_items occupied v ((slot, item) ∷ entries) =
    if contains occupied slot
    then err (value_error "replacement contents contain a duplicate slot")
    else set_item v (int slot) item >>= λ next. set_items (slot ∷ occupied) next entries

-- The view is replaced only by a candidate that took every entry.
unfoldable pub replace_contents : StorageItemView → List (ℤ × Value) → Result StorageItemView
replace_contents v entries = do
  candidate ← open_compound false v.rules v.item
  (ready, inner, values) ← mutable_contents false candidate.item
  filled ← set_items [] (record candidate { item = put_contents [] inner ready }) entries
  ok (record v { item = filled.item })

unfoldable pub validate :
    StorageItemView → Option StorageItemWeightResolver → Result StorageItemValidation
validate v resolver = validate_storage_item v.rules resolver (compound v.item)

unfoldable pub patch_parent : StorageItemView → BlockSnapshot → ℤ → Result BlockPatch
patch_parent v s slot =
    if ltb_ℤ slot (pos 0)
    then err (value_error "parent slot must be non-negative")
    else ok (record (empty_patch s.location s.revision) { inventory_updates = (slot, v.item) ∷ [] })
