-- ===== src/Inspector/Difference.antt =====
-- `_diff_snapshots`: what changed between two snapshots' mappings.
use endstone_blockdata_api.Base.{
  String, Bool, true, false, not, ◌&&◌, none, some, List, [], ◌∷◌, ◌++◌, if◌then◌else◌, Result, ok,
  err, attribute_error, ◌>>=◌, string_eq, nat_eq,
}
use endstone_blockdata_api.Base.Int.{ℤ, leb_ℤ, int_eq}
use endstone_blockdata_api.Base.Sort.{sort}
use endstone_blockdata_api.Base.Dict
use endstone_blockdata_api.Base.Dict.{Dict, keys}
use endstone_blockdata_api.Nbt.{Value, null, ItemNbt, as_dict}
use endstone_blockdata_api.Nbt.Conversion.{to_int, to_bool, to_dict, get_key}
use endstone_blockdata_api.Nbt.Equal.{value_eq}
use endstone_blockdata_api.Inspector.Python.{Python, get}
use endstone_blockdata_api.Inspector.Reading.{inventory_entries, is_empty_item}
use endstone_blockdata_api.Inspector.Session.{InspectorChange, InspectorDelta}

-- `left.get(slot)`
unfoldable pub value_at : ℤ → Dict ℤ Value → Value
value_at slot items = elim (Dict.lookup slot items) [ none ↦ null | some item ↦ item ]

unfoldable pub is_in : ℤ → Dict ℤ Value → Bool
is_in slot items = elim (Dict.lookup slot items) [ none ↦ false | some item ↦ true ]

unfoldable pub change_kind : ℤ → Dict ℤ Value → Dict ℤ Value → String
change_kind slot left right =
    if not (is_in slot left)
    then "added"
    else if not (is_in slot right)
    then "removed"
    else "changed"

-- The loop over the slots.
unfoldable pub slot_changes : Dict ℤ Value → Dict ℤ Value → List ℤ → List InspectorChange
slot_changes left right [] = []
slot_changes left right (slot ∷ slots) =
    let rest = slot_changes left right slots in
    let old = value_at slot left in
    let new = value_at slot right in
    if value_eq old new
    then rest
    else record { slot = slot; kind = change_kind slot left right; before = old; after = new }
      ∷ rest

-- The slots of the right that the left does not have.
unfoldable pub new_slots_of : Dict ℤ Value → List ℤ → List ℤ
new_slots_of left [] = []
new_slots_of left (slot ∷ slots) =
    let rest = new_slots_of left slots in if is_in slot left then rest else slot ∷ rest

-- `sorted(set(left) | set(right))`
unfoldable pub all_slots : Dict ℤ Value → Dict ℤ Value → List ℤ
all_slots left right = sort leb_ℤ (keys left ++ new_slots_of left (keys right))

module _ (python : Python) where
  -- `_inventory`: the items that are not empty, by their slots.
  unfoldable pub read_inventory : List ItemNbt → Dict ℤ Value → Result (Dict ℤ Value)
  read_inventory [] items = ok items
  read_inventory (entry ∷ entries) items = elim (Dict.lookup "slot" entry) [
    | none ↦ read_inventory entries items
    | some slot_value ↦
        if is_empty_item python (get "item" entry) then read_inventory entries items else (do
          slot ← to_int python.convert slot_value
          read_inventory entries (Dict.insert slot (get "item" entry) items))
  ]

  unfoldable pub inventory_items : ItemNbt → Result (Dict ℤ Value)
  inventory_items snapshot = read_inventory (inventory_entries snapshot) []

  -- `(entity or {}).get("nbt")`
  unfoldable pub entity_nbt : Value → Result Value
  entity_nbt entity = elim (as_dict entity) [
    | some mapping ↦ ok (get "nbt" mapping)
    | none ↦ if to_bool python.convert entity then err (attribute_error "get") else ok null
  ]

  unfoldable pub blocks_differ : ItemNbt → ItemNbt → Bool
  blocks_differ before after = not (
      value_eq (get "type" before) (get "type" after)
      && value_eq (get "runtime_id" before) (get "runtime_id" after)
      && value_eq (get "states" before) (get "states" after))

  -- `_diff_snapshots`
  unfoldable pub diff_snapshots : ItemNbt → ItemNbt → Result InspectorDelta
  diff_snapshots before after = do
    left ← inventory_items before
    right ← inventory_items after
    location_value ← get_key "location" after
    location ← to_dict python.convert location_value
    before_nbt ← entity_nbt (get "block_entity" before)
    after_nbt ← entity_nbt (get "block_entity" after)
    ok record {
      location = location;
      block_changed = blocks_differ before after;
      actor_nbt_changed = not (value_eq before_nbt after_nbt);
      inventory_changes = slot_changes left right (all_slots left right);
    }
