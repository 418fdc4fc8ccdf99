-- ===== src/Live.antt =====
-- python/endstone_blockdata/live.py: mappings of the native bridge as the package's records.
pub mod Bridge
pub mod Loader
pub mod RoundTrip
pub mod Served
pub mod Trusted
mod Tests
use endstone_blockdata_api.Base.{
  ℕ, String, Bool, true, false, Option, none, some, List, [], ◌∷◌, map, Result, ok, err,
  value_error, ◌>>=◌, map_result,
}
use endstone_blockdata_api.Base.Int.{ℤ, pos, leb_ℤ}
use endstone_blockdata_api.Base.Sort.{sort}
use endstone_blockdata_api.Base.Dict
use endstone_blockdata_api.Base.Dict.{Dict}
use endstone_blockdata_api.Base.Texts.{text_leb}
use endstone_blockdata_api.Nbt.{
  Value, null, bool, int, str, dict, ItemNbt, compound, sequence, as_dict, as_list,
}
use endstone_blockdata_api.Nbt.Conversion.{Conversions, to_int, to_str, to_bool, get_or, get_key}
use endstone_blockdata_api.Model.{
  BlockLocation, InventorySlotSnapshot, BlockEntitySnapshot, BlockSnapshot, BlockPatch,
  ConflictPolicy, fail_if_changed, merge_changed_paths, merge_inventory_slots, replace, force,
}

-- `isinstance(value, dict)` and `isinstance(value, list)`, or the error.
unfoldable pub expect_dict : String → Value → Result ItemNbt
expect_dict message v = elim (as_dict v) [ none ↦ err (value_error message) | some d ↦ ok d ]

unfoldable pub expect_list : String → Value → Result (List Value)
expect_list message v = elim (as_list v) [ none ↦ err (value_error message) | some l ↦ ok l ]

module _ (convert : Conversions) where
  unfoldable pub read_location : ItemNbt → Result BlockLocation
  read_location raw = do
    place ← expect_dict "live snapshot has no location mapping" (get_or "location" null raw)
    vx ← get_key "x" place
    x ← to_int convert vx
    vy ← get_key "y" place
    y ← to_int convert vy
    vz ← get_key "z" place
    z ← to_int convert vz
    ok record {
      dimension = to_str convert (get_or "dimension" (str "") place);
      x = x;
      y = y;
      z = z;
    }

  -- The body of the loop over `inventory_raw`.
  unfoldable pub read_slot : Value → Result InventorySlotSnapshot
  read_slot v = do
    entry ← expect_dict "live inventory entry is malformed" v
    item ← expect_dict "live inventory entry is malformed" (get_or "item" null entry)
    slot_value ← get_key "slot" entry
    slot ← to_int convert slot_value
    revision ← to_int convert (get_or "revision" (int (pos 0)) entry)
    ok record { slot = slot; item = item; revision = revision }

  unfoldable pub read_entity : Value → Result BlockEntitySnapshot
  read_entity v = do
    actor ← expect_dict "live block_entity must be a mapping or None" v
    inventory_raw ←
        expect_list "live block-entity inventory must be a list"
          (get_or "inventory" (sequence []) actor)
    inventory ← map_result read_slot inventory_raw
    nbt ←
        expect_dict "live block-entity NBT must be a compound mapping"
          (get_or "nbt" (compound []) actor)
    container_size ← to_int convert (get_or "container_size" (int (pos 0)) actor)
    ok record {
      type = to_str convert (get_or "type" (str "") actor);
      nbt = nbt;
      raw_snbt = to_str convert (get_or "snbt" (str "") actor);
      canonical_nbt = to_bool convert (get_or "canonical" (bool false) actor);
      inventory = inventory;
      is_container = to_bool convert (get_or "is_container" (bool false) actor);
      container_size = container_size;
    }

  -- An actor that is absent or None is no block entity.
  unfoldable pub read_actor : Value → Result (Option BlockEntitySnapshot)
  read_actor null = ok none
  read_actor v = do entity ← read_entity v; ok (some entity)

  unfoldable pub snapshot_from_mapping : ItemNbt → Result BlockSnapshot
  snapshot_from_mapping raw = do
    location ← read_location raw
    actor ← read_actor (get_or "block_entity" null raw)
    states ← expect_dict "live block states must be a mapping" (get_or "states" (compound []) raw)
    runtime_id ← to_int convert (get_or "runtime_id" (int (pos 0)) raw)
    revision ← to_int convert (get_or "revision" (int (pos 0)) raw)
    ok record {
      location = location;
      type = to_str convert (get_or "type" (str "minecraft:air") raw);
      runtime_id = runtime_id;
      states = states;
      block_entity = actor;
      revision = revision;
      block_entity_status = to_str convert (get_or "block_entity_status" (str "not_supported") raw);
    }

-- The mapping that `_patch_to_mapping` hands to the bridge: its fields, with the removals in order.
pub record PatchMapping : Type 0 where
  pub location : ItemNbt
  pub expected_revision : Option ℤ
  pub replacement_type : Option String
  pub state_updates : ItemNbt
  pub state_removals : List String
  pub nbt_updates : ItemNbt
  pub nbt_removals : List String
  pub inventory_updates : Dict ℤ ItemNbt
  pub inventory_removals : List ℤ

unfoldable pub location_mapping : BlockLocation → ItemNbt
location_mapping loc =
    ("dimension", str loc.dimension) ∷ ("x", int loc.x) ∷ ("y", int loc.y) ∷ ("z", int loc.z) ∷ []

unfoldable pub patch_to_mapping : BlockPatch → PatchMapping
patch_to_mapping p = record {
  location = location_mapping p.location;
  expected_revision = p.expected_revision;
  replacement_type = p.replacement_type;
  state_updates = p.state_updates;
  state_removals = sort text_leb p.state_removals;
  nbt_updates = p.nbt_updates;
  nbt_removals = sort text_leb p.nbt_removals;
  inventory_updates = p.inventory_updates;
  inventory_removals = sort leb_ℤ p.inventory_removals;
}

-- `_policy_name`; every policy has a name.
unfoldable pub policy_name : ConflictPolicy → String
policy_name fail_if_changed = "fail_if_changed"
policy_name merge_changed_paths = "merge_changed_paths"
policy_name merge_inventory_slots = "merge_inventory_slots"
policy_name replace = "replace"
policy_name force = "force"
