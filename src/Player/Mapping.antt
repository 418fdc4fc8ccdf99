-- ===== src/Player/Mapping.antt =====
-- The mappings of player_inventory.py, and its adapter over the native bridge.
use endstone_blockdata_api.Base.{
  String, Bool, Option, none, some, List, [], Result, ok, err, type_error, ◌>>=◌, map_result,
  then_return,
}
use endstone_blockdata_api.Base.Int.{pos, leb_ℤ}
use endstone_blockdata_api.Base.Sort.{sort}
use endstone_blockdata_api.Nbt.{Value, int, str, ItemNbt, sequence, as_dict, as_list}
use endstone_blockdata_api.Nbt.Conversion.{
  Conversions, to_int, to_str, to_bool, to_dict, get_or, get_key,
}
use endstone_blockdata_api.Player.{
  PlayerInventoryItemSnapshot, PlayerInventorySnapshot, PlayerInventoryPatch,
}

module _ (convert : Conversions) where
  -- `PlayerInventoryItemSnapshot.from_mapping`
  unfoldable pub item_from_mapping : Value → Result PlayerInventoryItemSnapshot
  item_from_mapping entry = elim (as_dict entry) [
    | none ↦ err (type_error "an inventory item snapshot is a mapping")
    | some value ↦ do
      slot_value ← get_key "slot" value
      slot ← to_int convert slot_value
      item_value ← get_key "item" value
      item ← to_dict convert item_value
      revision ← to_int convert (get_or "revision" (int (pos 0)) value)
      ok record { slot = slot; item = item; revision = revision }
  ]

  -- `read_items`, of the value under the name. A value that is no list is not iterable, or is a
  -- text or a mapping.
  unfoldable pub read_items : Value → Result (List PlayerInventoryItemSnapshot)
  read_items raw = elim (as_list raw) [
    | none ↦ err (type_error "not a list of inventory item snapshots")
    | some entries ↦ map_result item_from_mapping entries
  ]

  -- `PlayerInventorySnapshot.from_mapping`
  unfoldable pub player_from_mapping : ItemNbt → Result PlayerInventorySnapshot
  player_from_mapping value = do
    player_name ← get_key "player_name" value
    selected ← to_int convert (get_or "selected_hotbar_slot" (int (pos 0)) value)
    main_size ← to_int convert (get_or "main_size" (int (pos 0)) value)
    armor_size ← to_int convert (get_or "armor_size" (int (pos 4)) value)
    offhand_size ← to_int convert (get_or "offhand_size" (int (pos 1)) value)
    ender_chest_size ← to_int convert (get_or "ender_chest_size" (int (pos 0)) value)
    main ← read_items (get_or "main" (sequence []) value)
    armor ← read_items (get_or "armor" (sequence []) value)
    offhand ← read_items (get_or "offhand" (sequence []) value)
    ender_chest ← read_items (get_or "ender_chest" (sequence []) value)
    revision ← to_int convert (get_or "revision" (int (pos 0)) value)
    ok record {
      player_name = to_str convert player_name;
      xuid = to_str convert (get_or "xuid" (str "") value);
      selected_hotbar_slot = selected;
      main_size = main_size;
      armor_size = armor_size;
      offhand_size = offhand_size;
      ender_chest_size = ender_chest_size;
      main = main;
      armor = armor;
      offhand = offhand;
      ender_chest = ender_chest;
      revision = revision;
    }

-- `PlayerInventoryPatch.to_mapping`: the patch with its sets as sorted lists.
unfoldable pub player_patch_mapping : PlayerInventoryPatch → PlayerInventoryPatch
player_patch_mapping p = record p {
  main_removals = sort leb_ℤ p.main_removals;
  armor_removals = sort leb_ℤ p.armor_removals;
  offhand_removals = sort leb_ℤ p.offhand_removals;
  ender_chest_removals = sort leb_ℤ p.ender_chest_removals;
}

-- The calls of the native module that the adapter makes, on the world that the server holds.
pub record PlayerBridge {ℓ κ} (World : Type ℓ) (Player : Type κ) : Type (ℓ ⊔ κ) where
  pub player_inventory_available : World → Result Value
  pub player_inventory_capabilities : World → Result ItemNbt
  pub capture_player_inventory : Player → World → Result (Option ItemNbt)
  pub apply_player_inventory :
      Player → PlayerInventoryPatch → String → World → Result ItemNbt × World

module _ {ℓ κ} {World : Type ℓ} {Player : Type κ} (convert : Conversions)
    (bridge : PlayerBridge World Player) where
  unfoldable pub player_available : World → Result Bool
  player_available world = do v ← bridge.player_inventory_available world; ok (to_bool convert v)

  unfoldable pub player_capabilities : World → Result ItemNbt
  player_capabilities world = bridge.player_inventory_capabilities world

  unfoldable pub player_capture : Player → World → Result (Option PlayerInventorySnapshot)
  player_capture player world = do
    raw ← bridge.capture_player_inventory player world
    elim raw [
      | none ↦ ok none
      | some mapping ↦ then_return some (player_from_mapping convert mapping)
    ]

  unfoldable pub player_apply :
      Player → PlayerInventoryPatch → String → World → Result ItemNbt × World
  player_apply player patch conflict_policy world =
      bridge.apply_player_inventory player (player_patch_mapping patch) conflict_policy world
