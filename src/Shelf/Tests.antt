-- ===== src/Shelf/Tests.antt =====
-- A shelf that holds bread: its view, and a patch that replaces what it holds.
use endstone_blockdata_api.Base.{
  ℕ, ◌<◌, ◌≡◌, ◌↔◌, refl, arith, true, none, some, List, [], ◌∷◌, ok, then_return, ltb,
  if◌then◌else◌, map_result, string_eq, nat_eq,
}
use endstone_blockdata_api.Base.Int.{pos, int_eq}
use endstone_blockdata_api.Base.Lists.{length, get_elem?}
use endstone_blockdata_api.Base.Dict
use endstone_blockdata_api.Base.Dict.{NodupKeys}
use endstone_blockdata_api.Nbt.{
  Value, null, bool, int, compound, sequence, as_list, as_dict, as_int, as_str, entries, of_entries,
  elements, of_elements,
}
use endstone_blockdata_api.Nbt.Equal.{value_eq, is_int}
use endstone_blockdata_api.Nbt.Sample.{weight}
use endstone_blockdata_api.Model.{
  BlockPatch, BlockSnapshot, location_eq, BlockLocation-discrete, fail_if_changed,
}
use endstone_blockdata_api.Memory.{capture, apply}
use endstone_blockdata_api.Memory.Inventory.{item_at, inventory_of, patched_item}
use endstone_blockdata_api.Memory.Sample.{
  vault, diamonds, run_apply, shelf_blocks, shelf_blocks-AllSound,
}
use endstone_blockdata_api.Audit.{shown}
use endstone_blockdata_api.Shelf.{
  ShelfView, shelf, kind_of, kind_capacity, check_slots, open_actor, open_shelf, capacity, slots,
  validate_slot, validate_item, validate_name, validate_count, first_present, identifier_of,
  count_of, accepts, get_item, among, check_update, check_removal, patch_items, patch_item, present,
  absent, replace_items, shelf_patch,
}
use endstone_blockdata_api.Shelf.Slots.{IsShelf, open_shelf_iff}
use endstone_blockdata_api.Shelf.Contents.{get_elem?-slots, validate_slot_iff, get_item-eq}
use endstone_blockdata_api.Shelf.Patches.{
  IsShelfPatch, patch_items-IsShelfPatch, patch_item-IsShelfPatch,
}
use endstone_blockdata_api.Shelf.Applied.{apply-IsShelfPatch}
use endstone_blockdata_api.Shelf.Listed.{wanted}
use endstone_blockdata_api.Shelf.Replace.{replace_items-ok}
use endstone_blockdata_api.Memory.Sample.{shelf_entity}

abbrev here : BlockSnapshot
here = capture weight vault shelf_blocks

abbrev view : ShelfView
view = record { snapshot = here; actor = shelf_entity; kind = shelf }

opened : open_shelf here ≡ ok view
unfolding run_apply location_eq BlockLocation-discrete open_shelf open_actor kind_of kind_capacity
    check_slots
opened = refl

-- The replacement list: diamonds in the second slot, nothing else.
abbrev contents : List Value
contents = null ∷ compound diamonds ∷ null ∷ []

abbrev patch : BlockPatch
patch = shelf_patch view ((pos 1, diamonds) ∷ []) (pos 0 ∷ pos 2 ∷ [])

built : replace_items view (sequence contents) ≡ ok patch
unfolding replace_items present absent patch_items check_update check_removal validate_slot capacity
    kind_capacity validate_item validate_name validate_count first_present identifier_of count_of
    accepts among value_eq is_int int_eq string_eq Dict.lookup as_list as_dict as_int as_str entries
    of_entries elements of_elements map_result nat_eq
built = refl

three_slots : capacity view ≡ 3
unfolding capacity kind_capacity
three_slots = refl

first_is_slot : 0 < capacity view
first_is_slot = omega (arith, three_slots)

open_shelf_iff_example :
    (open_shelf here ≡ ok view) ↔ ((here ≡ here) × IsShelf shelf shelf_entity here)
open_shelf_iff_example = open_shelf_iff here view

get_elem?-slots_example :
    get_elem? (slots view) 0
    ≡ (if ltb 0 (capacity view) then some (item_at (inventory_of here) (pos 0)) else none)
get_elem?-slots_example = get_elem?-slots here view opened 0

validate_slot_iff_example :
    (validate_slot view (bool true) ≡ ok 1) ↔ ((bool true ≡ int (pos 1)) × (1 < capacity view))
validate_slot_iff_example = validate_slot_iff view (bool true) 1

get_item-eq_example :
    get_item view (int (pos 0))
    ≡ then_return (λ i. item_at (inventory_of here) (pos i)) (validate_slot view (int (pos 0)))
get_item-eq_example = get_item-eq here view opened (int (pos 0))

replace_items-ok_example :
    (items : List Value) × (as_list (sequence contents) ≡ some items)
    × (length items ≡ capacity view)
    × IsShelfPatch view patch
    × NodupKeys patch.inventory_updates
    × (patched_item patch (pos 0) none ≡ wanted items 0)
replace_items-ok_example =
    replace_items-ok view (sequence contents) patch 0 none built first_is_slot

one_item :
    patch_item view (int (pos 1)) (compound diamonds)
    ≡ ok (shelf_patch view ((pos 1, diamonds) ∷ []) [])
unfolding patch_item validate_slot capacity kind_capacity validate_item validate_name validate_count
    first_present identifier_of count_of accepts int_eq string_eq Dict.lookup as_dict as_int as_str
    entries of_entries
one_item = refl

patch_item-IsShelfPatch_example : IsShelfPatch view (shelf_patch view ((pos 1, diamonds) ∷ []) [])
patch_item-IsShelfPatch_example =
    patch_item-IsShelfPatch view (int (pos 1)) (compound diamonds)
      (shelf_patch view ((pos 1, diamonds) ∷ []) []) one_item

two_changes :
    patch_items view ((int (pos 1), compound diamonds) ∷ []) (int (pos 0) ∷ int (pos 2) ∷ [])
    ≡ ok patch
unfolding patch_items check_update check_removal validate_slot capacity kind_capacity validate_item
    validate_name validate_count first_present identifier_of count_of accepts among value_eq is_int
    int_eq string_eq Dict.lookup as_dict as_int as_str entries of_entries map_result
two_changes = refl

patch_items-IsShelfPatch_example : IsShelfPatch view patch
patch_items-IsShelfPatch_example =
    patch_items-IsShelfPatch view ((int (pos 1), compound diamonds) ∷ [])
      (int (pos 0) ∷ int (pos 2) ∷ []) patch two_changes

patch-IsShelfPatch : IsShelfPatch view patch
patch-IsShelfPatch =
    patch_items-IsShelfPatch view ((int (pos 1), compound diamonds) ∷ [])
      (int (pos 0) ∷ int (pos 2) ∷ []) patch two_changes

patch-NodupKeys : NodupKeys patch.inventory_updates
unfolding Dict.lookup
patch-NodupKeys = (refl, tt)

apply-IsShelfPatch_example :
    let (result, after) = apply weight patch fail_if_changed shelf_blocks in
    (result.succeeded ≡ true)
    × (t : ShelfView) × (open_shelf (capture weight vault after) ≡ ok t)
    × (t.kind ≡ shelf)
    × ((i : ℕ)
        → get_elem? (slots t) i ≡ (
            if ltb i (capacity view)
            then some (patched_item patch (pos i) (shown weight vault shelf_blocks (pos i)))
            else none))
apply-IsShelfPatch_example =
    apply-IsShelfPatch weight view patch shelf_blocks vault shelf_blocks-AllSound opened
      patch-IsShelfPatch patch-NodupKeys
