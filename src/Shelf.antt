-- ===== src/Shelf.antt =====
-- `ShelfView` of service.py: a view of a complete shelf capture, and the patches that it builds.
pub mod Slots
pub mod Contents
pub mod Patches
pub mod Patched
pub mod Applied
pub mod Listed
pub mod Replace
mod Tests
use endstone_blockdata_api.Base.{
  ℕ, suc, String, Bool, true, false, not, ◌&&◌, ◌||◌, Option, none, some, List, [], ◌∷◌, ◌==◌,
  contains, if◌then◌else◌, Result, ok, err, value_error, index_error, ◌>>=◌, ◌>>◌, require,
  map_result, string_eq, nat_eq,
}
use endstone_blockdata_api.Base.Int.{ℤ, pos, negsuc, leb_ℤ, ltb_ℤ, int_eq}
use endstone_blockdata_api.Base.Lists.{length, replicate, set, get_elem?}
use endstone_blockdata_api.Nbt.{Value, null, int, str, ItemNbt, as_dict, as_list, as_str, as_int}
use endstone_blockdata_api.Nbt.Equal.{value_eq}
use endstone_blockdata_api.Base.Dict
use endstone_blockdata_api.Base.Dict.{Dict}
use endstone_blockdata_api.Model.{
  InventorySlotSnapshot, BlockEntitySnapshot, BlockSnapshot, BlockPatch, empty_patch,
}

pub data ShelfKind : Type 0 where
  shelf chiseled_bookshelf : ShelfKind

-- The snapshot, its actor, which the constructor found, and the kind.
pub record ShelfView : Type 0 where
  pub snapshot : BlockSnapshot
  pub actor : BlockEntitySnapshot
  pub kind : ShelfKind

unfoldable pub kind_capacity : ShelfKind → ℕ
kind_capacity shelf = 3
kind_capacity chiseled_bookshelf = 6

abbrev pub incomplete : Result ShelfView
incomplete = err (value_error "shelf capture is incomplete or unavailable")

unfoldable pub kind_of : String → Result ShelfKind
kind_of type =
    if type == "minecraft:shelf"
    then ok shelf
    else if type == "minecraft:chiseled_bookshelf"
    then ok chiseled_bookshelf
    else err (value_error "block actor is not a supported shelf")

-- The loop over the inventory, with the slots that were seen before.
unfoldable pub check_slots : ℕ → List ℤ → List InventorySlotSnapshot → Result (Unit {0})
check_slots expected occupied [] = ok tt
check_slots expected occupied (entry ∷ rest) =
    let others = check_slots expected (entry.slot ∷ occupied) rest in
    if not (leb_ℤ (pos 0) entry.slot && ltb_ℤ entry.slot (pos expected))
    then err (value_error "shelf capture contains an out-of-range slot")
    else if contains occupied entry.slot
    then err (value_error "shelf capture contains a duplicate slot")
    else others

unfoldable pub open_actor : BlockSnapshot → BlockEntitySnapshot → Result ShelfView
open_actor s actor = do
  kind ← kind_of actor.type
  require (actor.container_size == pos (kind_capacity kind))
      (value_error "shelf container capacity does not match the exact actor contract")
  check_slots (kind_capacity kind) [] actor.inventory
  ok (record { snapshot = s; actor = actor; kind = kind })

-- `ShelfView(snapshot)`
unfoldable pub open_shelf : BlockSnapshot → Result ShelfView
open_shelf s = elim s.block_entity [
  | none ↦ incomplete
  | some actor ↦
      if not (s.block_entity_status == "captured") || not actor.is_container
      then incomplete
      else open_actor s actor
]

unfoldable pub capacity : ShelfView → ℕ
capacity v = kind_capacity v.kind

-- `output[slot] = item`; the constructor refuses negative slots.
unfoldable pub store : List (Option ItemNbt) → ℤ → ItemNbt → List (Option ItemNbt)
store output (pos n) item = set output n (some item)
store output (negsuc n) item = output

unfoldable pub fill : List (Option ItemNbt) → List InventorySlotSnapshot → List (Option ItemNbt)
fill output [] = output
fill output (entry ∷ rest) = fill (store output entry.slot entry.item) rest

unfoldable pub slots : ShelfView → List (Option ItemNbt)
slots v = fill (replicate (capacity v) none) v.actor.inventory

abbrev pub out_of_range : Result ℕ
out_of_range = err (index_error "shelf slot is out of range")

-- A slot that passes is returned as the index that it is.
unfoldable pub validate_slot : ShelfView → Value → Result ℕ
validate_slot v slot = elim (as_int slot) [
  | none ↦ out_of_range
  | some n ↦ elim n [
    | pos i ↦ if ltb_ℤ (pos i) (pos (capacity v)) then ok i else out_of_range
    | negsuc i ↦ out_of_range
  ]
]

-- `next((item[key] for key in keys if key in item), default)`
unfoldable pub first_present : List String → ItemNbt → Option Value
first_present [] item = none
first_present (key ∷ keys) item = elim (Dict.lookup key item) [
  | some v ↦ some v
  | none ↦ first_present keys item
]

unfoldable pub identifier_of : ItemNbt → Option String
identifier_of item = elim (first_present ("Name" ∷ "name" ∷ "id" ∷ []) item) [
  | none ↦ none
  | some v ↦ as_str v
]

unfoldable pub count_of : ItemNbt → Option ℤ
count_of item = elim (first_present ("Count" ∷ "count" ∷ []) item) [
  | none ↦ some (pos 1)
  | some v ↦ as_int v
]

abbrev pub book_ids : List String
book_ids =
    "minecraft:book" ∷ "minecraft:writable_book" ∷ "minecraft:written_book"
    ∷ "minecraft:enchanted_book" ∷ []

unfoldable pub accepts : ShelfKind → String → ℤ → Bool
accepts shelf identifier count = true
accepts chiseled_bookshelf identifier count = count == pos 1 && contains book_ids identifier

-- The tests on the count and, last, those of the kind.
unfoldable pub validate_count : ShelfKind → String → Option ℤ → ItemNbt → Result ItemNbt
validate_count kind identifier none item = err (value_error "shelf item count is out of range")
validate_count kind identifier (some count) item =
    if not (leb_ℤ (pos 1) count && leb_ℤ count (pos 255))
    then err (value_error "shelf item count is out of range")
    else if accepts kind identifier count
    then ok item
    else err (value_error "chiseled bookshelf slots accept exactly one supported book")

unfoldable pub validate_name : ShelfKind → Option String → ItemNbt → Result ItemNbt
validate_name kind none item = err (value_error "shelf item has no item identifier")
validate_name kind (some identifier) item =
    if identifier == ""
    then err (value_error "shelf item has no item identifier")
    else validate_count kind identifier (count_of item) item

-- An item that passes is returned as the compound that it is.
unfoldable pub validate_item : ShelfView → Value → Result ItemNbt
validate_item v value = elim (as_dict value) [
  | none ↦ err (value_error "shelf item must be an NBT compound")
  | some item ↦ validate_name v.kind (identifier_of item) item
]

-- `get_item`
unfoldable pub get_item : ShelfView → Value → Result (Option ItemNbt)
get_item v slot = do
  i ← validate_slot v slot
  elim (get_elem? (slots v) i) [
    | some item ↦ ok item
    | none ↦ err (index_error "list index out of range")
  ]

-- `BlockPatch(location, revision, …)`
abbrev pub shelf_patch : ShelfView → Dict ℤ ItemNbt → List ℤ → BlockPatch
shelf_patch v updates removals = record (empty_patch v.snapshot.location v.snapshot.revision) {
  inventory_updates = updates;
  inventory_removals = removals;
}

unfoldable pub patch_item : ShelfView → Value → Value → Result BlockPatch
patch_item v slot item = do
  i ← validate_slot v slot
  valid ← validate_item v item
  ok (shelf_patch v ((pos i, valid) ∷ []) [])

-- `slot in removals`
unfoldable pub among : Value → List Value → Bool
among slot [] = false
among slot (r ∷ removals) = value_eq slot r || among slot removals

-- The body of the loop over the updates.
unfoldable pub check_update : ShelfView → List Value → Value × Value → Result (ℤ × ItemNbt)
check_update v removals (slot, item) = do
  i ← validate_slot v slot
  valid ← validate_item v item
  require (not (among slot removals))
      (value_error "a shelf slot cannot be updated and removed in one patch")
  ok (pos i, valid)

unfoldable pub check_removal : ShelfView → Value → Result ℤ
check_removal v slot = do i ← validate_slot v slot; ok (pos i)

unfoldable pub patch_items : ShelfView → List (Value × Value) → List Value → Result BlockPatch
patch_items v updates removals = do
  valid ← map_result (check_update v removals) updates
  cleared ← map_result (check_removal v) removals
  ok (shelf_patch v valid cleared)

unfoldable pub clear_item : ShelfView → Value → Result BlockPatch
clear_item v slot = patch_items v [] (slot ∷ [])

-- `{slot: item for slot, item in enumerate(items) if item is not None}`
unfoldable pub present : ℕ → List Value → List (Value × Value)
present i [] = []
present i (null ∷ items) = present (suc i) items
present i (item ∷ items) = (int (pos i), item) ∷ present (suc i) items

-- `{slot for slot, item in enumerate(items) if item is None}`
unfoldable pub absent : ℕ → List Value → List Value
absent i [] = []
absent i (null ∷ items) = int (pos i) ∷ absent (suc i) items
absent i (item ∷ items) = absent (suc i) items

unfoldable pub replace_items : ShelfView → Value → Result BlockPatch
replace_items v value = elim (as_list value) [
  | none ↦ err (value_error "replacement shelf contents must match the exact capacity")
  | some items ↦
      if length items == capacity v
      then patch_items v (present 0 items) (absent 0 items)
      else err (value_error "replacement shelf contents must match the exact capacity")
]
