-- ===== src/StorageItem/Tests.antt =====
-- Runs on a bundle with two kinds of blocks, and the theorems at concrete data.
use mathlib.Core.Option
use endstone_blockdata_api.Base.{
  ℕ, ◌+◌, ◌*◌, ◌≤◌, ◌<◌, ◌≡◌, refl, arith, String, true, false, none, some, List, [], ◌∷◌, ◌==◌,
  ◌↔◌, if◌then◌else◌, ok, map_result, string_eq, nat_eq,
}
use endstone_blockdata_api.Base.Int.{ℤ, pos, int_eq}
use endstone_blockdata_api.Base.Dict
use endstone_blockdata_api.Base.Sort.{place, sort}
use endstone_blockdata_api.Nbt.{
  Value, int, str, ItemNbt, compound, sequence, as_dict, as_int, as_list, as_str, entries, elements,
  of_entries, of_elements, get_first,
}
use endstone_blockdata_api.Nbt.Equal.{is_int}
use endstone_blockdata_api.StorageItem.Rules.{
  StorageItemRules, make_rules, accept, int_between, int_below,
}
use endstone_blockdata_api.StorageItem.Reading
use endstone_blockdata_api.StorageItem.Weight.{
  storage_weight_from_max_stack_size, embedded_weight, first_int,
}
use endstone_blockdata_api.StorageItem.Rounding.{storage_weight_least}
use endstone_blockdata_api.StorageItem.Validate.{
  finish, is_ok, is_empty, is_allowed, is_banned, resolve, unit_weight, weigh, weigh_nested,
  weigh_plain, check_entry, check_entries, validate_compound, validate_at, validate_storage_item,
}
use endstone_blockdata_api.StorageItem.Spec.{Stores}
use endstone_blockdata_api.StorageItem.Accepted.{validate_storage_item_iff}
use endstone_blockdata_api.StorageItem.View
use endstone_blockdata_api.Nbt.Sample.{weight}
use endstone_blockdata_api.Model.{
  BlockPatch, empty_patch, fail_if_changed, refresh_revision, location_eq, BlockLocation-discrete,
}
use endstone_blockdata_api.Memory.{capture, stored, apply}
use endstone_blockdata_api.Memory.Sample.{vault, shelf_blocks, shelf_blocks-AllSound}
use endstone_blockdata_api.Audit.{shown}
use endstone_blockdata_api.StorageItem.Parent.{patch_parent-apply}
use endstone_blockdata_api.StorageItem.View.{StorageItemView, StorageItemEntry}
use endstone_blockdata_api.StorageItem.Stored.{stored_item}
use endstone_blockdata_api.StorageItem.Edits.{clear_item-get_item, set_item-get_item}
use endstone_blockdata_api.StorageItem.Replace.{given, replace_contents-get_item}

abbrev default_rules : StorageItemRules
default_rules = record {
  slot_capacity = 64;
  max_weight = 64;
  nested_storage_item_weight = 4;
  allow_nested_storage_items = true;
  reject_shulker_boxes = true;
  allowed_items = [];
  banned_items = [];
}

abbrev block : String → ℕ → ItemNbt
block name n = ("Name", str name) ∷ ("Count", int (pos n)) ∷ []

abbrev stack : ℕ → String → ℕ → ItemNbt
stack slot name n = ("Name", str name) ∷ ("Count", int (pos n)) ∷ ("Slot", int (pos slot)) ∷ []

abbrev bundle : List Value → ItemNbt
bundle values =
    ("Name", str "minecraft:bundle")
    ∷ ("tag", compound (("storage_item_component_content", sequence values) ∷ []))
    ∷ []

abbrev stone : ItemNbt
stone = stack 0 "minecraft:stone" 3

abbrev dirt : ItemNbt
dirt = stack 5 "minecraft:dirt" 2

abbrev two_kinds : Value
two_kinds = compound (bundle (compound stone ∷ compound dirt ∷ []))

abbrev bundle_view : List Value → StorageItemView
bundle_view values = record { item = bundle values; rules = default_rules }

abbrev stocked : StorageItemView
stocked = bundle_view (compound stone ∷ compound dirt ∷ [])

rules_test :
    make_rules (int (pos 64)) (int (pos 64)) (int (pos 4)) true true [] [] ≡ ok default_rules
unfolding make_rules accept int_between
rules_test = refl

validate_test : validate_storage_item default_rules none two_kinds ≡ ok (finish 5 false)
unfolding validate_storage_item validate_at validate_compound check_entries check_entry weigh
    weigh_nested weigh_plain unit_weight resolve is_empty is_allowed is_banned int_between int_below
    embedded_weight first_int Reading.identifier Reading.first_name Reading.name_in Reading.count
    Reading.tag Reading.contents Reading.has Reading.has_contents_field Reading.is_storage_item_nbt
    Reading.is_shulker_box Reading.is_vanilla_bundle_identifier Reading.slot_of as_dict as_int
    as_list as_str entries elements of_entries of_elements get_first Dict.lookup string_eq nat_eq
validate_test = refl

validate_storage_item_iff_example :
    ((validate_storage_item default_rules none two_kinds ≡ ok (finish 5 false))
      × (is_ok (finish 5 false) ≡ true))
    ↔ ((item : ItemNbt) × (as_dict two_kinds ≡ some item)
        × (Stores default_rules none 9 item 5 false)
        × (finish 5 false ≡ finish 5 false))
validate_storage_item_iff_example =
    validate_storage_item_iff default_rules none two_kinds (finish 5 false)

read_test :
    View.entries_of stocked
    ≡ ok (record { slot = pos 0; item = stone } ∷ record { slot = pos 5; item = dirt } ∷ [])
unfolding View.entries_of View.read_entry Reading.contents Reading.tag Reading.slot_of as_dict
    as_int as_list entries elements of_entries of_elements get_first Dict.lookup string_eq sort
    place map_result
read_test = refl

clear_test : View.clear_item stocked (int (pos 5)) ≡ ok (bundle_view (compound stone ∷ []))
unfolding View.clear_item View.check_slot View.mutable_contents View.open_tag View.contents_in
    View.without View.in_slot View.put_contents View.put_tag Reading.tag Reading.has int_below
    is_int as_dict as_list entries elements of_entries of_elements get_first Dict.lookup Dict.insert
    string_eq int_eq
clear_test = refl

clear_item-get_item_example :
    (i : ℕ) × (View.check_slot stocked (int (pos 5)) ≡ ok i)
    × ((j : ℕ)
        → j < 64
        → View.get_item (bundle_view (compound stone ∷ [])) (int (pos j))
          ≡ (if i == j then ok none else View.get_item stocked (int (pos j))))
clear_item-get_item_example =
    clear_item-get_item stocked (bundle_view (compound stone ∷ [])) (int (pos 5))
      (record { slot = pos 0; item = stone } ∷ record { slot = pos 5; item = dirt } ∷ []) read_test
      clear_test

-- The new stack goes between the two that are there.
set_test :
    View.set_item stocked (int (pos 2)) (compound (block "minecraft:sand" 7))
    ≡ ok (bundle_view (compound stone ∷ compound (stack 2 "minecraft:sand" 7) ∷ compound dirt ∷ []))
unfolding View.set_item View.check_slot View.mutable_contents View.open_tag View.contents_in
    View.without View.in_slot View.put_contents View.put_tag View.valid_item View.slot_key
    Reading.identifier Reading.first_name Reading.name_in Reading.count Reading.tag Reading.has
    Reading.slot_of int_below int_between is_int as_dict as_int as_list as_str entries elements
    of_entries of_elements get_first Dict.lookup Dict.insert string_eq int_eq sort place
set_test = refl

set_item-get_item_example :
    (i : ℕ) × (item : ItemNbt) × (View.check_slot stocked (int (pos 2)) ≡ ok i)
    × (as_dict (compound (block "minecraft:sand" 7)) ≡ some item)
    × ((j : ℕ)
        → j < 64
        → View.get_item
            (bundle_view
              (compound stone ∷ compound (stack 2 "minecraft:sand" 7) ∷ compound dirt ∷ []))
            (int (pos j))
          ≡ (if i == j
              then ok (some (stored_item i item))
              else View.get_item stocked (int (pos j))))
set_item-get_item_example =
    set_item-get_item stocked
      (bundle_view (compound stone ∷ compound (stack 2 "minecraft:sand" 7) ∷ compound dirt ∷ []))
      (int (pos 2)) (compound (block "minecraft:sand" 7))
      (record { slot = pos 0; item = stone } ∷ record { slot = pos 5; item = dirt } ∷ []) read_test
      set_test

abbrev new_stock : List (ℤ × Value)
new_stock =
    (pos 9, compound (block "minecraft:sand" 7)) ∷ (pos 1, compound (block "minecraft:clay" 1)) ∷ []

abbrev restocked : StorageItemView
restocked =
    bundle_view (compound (stack 1 "minecraft:clay" 1) ∷ compound (stack 9 "minecraft:sand" 7) ∷ [])

replace_test : View.replace_contents stocked new_stock ≡ ok restocked
unfolding View.replace_contents View.open_compound View.set_items View.set_item View.check_slot
    View.mutable_contents View.open_tag View.contents_in View.without View.in_slot View.put_contents
    View.put_tag View.valid_item View.slot_key Reading.identifier Reading.first_name Reading.name_in
    Reading.count Reading.tag Reading.has Reading.has_contents_field Reading.is_storage_item_nbt
    Reading.is_vanilla_bundle_identifier Reading.slot_of int_below int_between is_int as_dict as_int
    as_list as_str entries elements of_entries of_elements get_first Dict.lookup Dict.insert
    string_eq int_eq sort place
replace_test = refl

replace_contents-get_item_example :
    View.get_item restocked (int (pos 9))
    ≡ ok (Option.map (stored_item 9) (given (pos 9) new_stock))
replace_contents-get_item_example =
    replace_contents-get_item stocked restocked new_stock 9 replace_test (omega arith)

weight_test : storage_weight_from_max_stack_size (pos 3) (pos 64) ≡ ok (pos 22)
unfolding storage_weight_from_max_stack_size
weight_test = refl

storage_weight_least_example : (64 ≤ 22 * 3) × (22 * 3 < 64 + 3) × (1 ≤ 22)
storage_weight_least_example = storage_weight_least 3 64 22 weight_test

abbrev parent : BlockPatch
parent = record (empty_patch vault (capture weight vault shelf_blocks).revision) {
  inventory_updates = (pos 2, stocked.item) ∷ [];
}

parent_test : View.patch_parent stocked (capture weight vault shelf_blocks) (pos 2) ≡ ok parent
unfolding View.patch_parent capture stored refresh_revision location_eq BlockLocation-discrete
    Dict.lookup Dict.insert
parent_test = refl

patch_parent-apply_example :
    ((apply weight parent fail_if_changed shelf_blocks).0.succeeded ≡ true)
    × (shown weight vault (apply weight parent fail_if_changed shelf_blocks).1 (pos 2)
        ≡ some stocked.item)
unfolding int_eq
patch_parent-apply_example =
    patch_parent-apply weight vault shelf_blocks stocked (pos 2) parent (pos 2)
      shelf_blocks-AllSound parent_test
