-- ===== src/Player/RoundTrip.antt =====
-- A player's inventory survives the mapping that carries it through player_inventory.py.
use endstone_blockdata_api.Base.{◌≡◌, refl, List, [], ◌∷◌, map, ok, string_eq, map_result}
use endstone_blockdata_api.Base.Dict.{lookup}
use endstone_blockdata_api.Nbt.{
  Value, int, str, ItemNbt, compound, sequence, as_dict, as_list, entries, entries-of_entries,
  elements-of_elements,
}
use endstone_blockdata_api.Nbt.Conversion.{Conversions, to_int, to_str, to_dict, get_or, get_key}
use endstone_blockdata_api.Player.{PlayerInventoryItemSnapshot, PlayerInventorySnapshot}
use endstone_blockdata_api.Player.Mapping.{item_from_mapping, read_items, player_from_mapping}

-- The mapping of an inventory, with every key that is read.
abbrev pub item_mapping : PlayerInventoryItemSnapshot → Value
item_mapping s =
    compound (("slot", int s.slot) ∷ ("item", compound s.item) ∷ ("revision", int s.revision) ∷ [])

abbrev items_mapping : List PlayerInventoryItemSnapshot → Value
items_mapping l = sequence (map item_mapping l)

unfoldable pub player_mapping : PlayerInventorySnapshot → ItemNbt
player_mapping s =
    ("player_name", str s.player_name)
    ∷ ("xuid", str s.xuid)
    ∷ ("selected_hotbar_slot", int s.selected_hotbar_slot)
    ∷ ("main_size", int s.main_size)
    ∷ ("armor_size", int s.armor_size)
    ∷ ("offhand_size", int s.offhand_size)
    ∷ ("ender_chest_size", int s.ender_chest_size)
    ∷ ("main", items_mapping s.main)
    ∷ ("armor", items_mapping s.armor)
    ∷ ("offhand", items_mapping s.offhand)
    ∷ ("ender_chest", items_mapping s.ender_chest)
    ∷ ("revision", int s.revision)
    ∷ []

module _ (convert : Conversions) where
  item_from_mapping-item_mapping :
      (s : PlayerInventoryItemSnapshot) → item_from_mapping convert (item_mapping s) ≡ ok s
  unfolding item_from_mapping as_dict entries get_or get_key to_int to_dict lookup string_eq
  item_from_mapping-item_mapping s = simp (entries-of_entries)

  items_back :
      (l : List PlayerInventoryItemSnapshot)
      → map_result (item_from_mapping convert) (map item_mapping l) ≡ ok l
  unfolding map_result
  items_back [] = refl
  items_back (s ∷ l) = simp (item_from_mapping-item_mapping s, items_back l)

  read_items-items_mapping :
      (l : List PlayerInventoryItemSnapshot) → read_items convert (items_mapping l) ≡ ok l
  unfolding read_items as_list
  read_items-items_mapping l = simp (elements-of_elements, items_back l)

  -- Reading the mapping of a player's inventory, which has every key that is read, gives the
  -- inventory back.
  pub player_from_mapping-player_mapping :
      (s : PlayerInventorySnapshot) → player_from_mapping convert (player_mapping s) ≡ ok s
  unfolding player_from_mapping player_mapping get_or get_key to_int to_str lookup string_eq
  player_from_mapping-player_mapping s = simp (
    read_items-items_mapping s.main,
    read_items-items_mapping s.armor,
    read_items-items_mapping s.offhand,
    read_items-items_mapping s.ender_chest,
  )
