-- ===== src/Player/Tests.antt =====
-- A player with a bundle in the main inventory, and the theorems at that inventory.
use endstone_blockdata_api.Base.{◌≡◌, refl, ◌↔◌, true, some, [], ◌∷◌, ok, string_eq}
use endstone_blockdata_api.Base.Int.{ℤ, pos, int_eq}
use endstone_blockdata_api.Base.Lists.{Has}
use endstone_blockdata_api.Base.Dict
use endstone_blockdata_api.Nbt.{
  int, str, ItemNbt, compound, sequence, as_dict, as_int, as_list, as_str, entries, elements,
  of_entries, of_elements, get_first,
}
use endstone_blockdata_api.StorageItem.Rules.{StorageItemRules}
use endstone_blockdata_api.StorageItem.Reading
use endstone_blockdata_api.StorageItem.View.{open_compound, open_tag, contents_in, mutable_contents}
use endstone_blockdata_api.Player.{
  PlayerInventorySection, main, PlayerInventorySnapshot, PlayerInventoryPatch,
  PlayerStorageItemReference, empty_player_patch, section_of, section_size, section_items,
  check_player_slot, item_in, get_player_item, put_update, put_removal, patch_player_item,
  clear_player_item, open_storage_item, patch_storage_item, find_storage_items,
}
use endstone_blockdata_api.Player.Patches.{
  IsSectionPatch, InSection, patch_player_item-IsSectionPatch, clear_player_item-IsSectionPatch,
}
use endstone_blockdata_api.Nbt.Sample.{plain}
use endstone_blockdata_api.Player.Mapping.{player_from_mapping}
use endstone_blockdata_api.Player.RoundTrip.{player_mapping, player_from_mapping-player_mapping}
use endstone_blockdata_api.Player.Storage.{IsFound, patch_storage_item_back, find_storage_items_iff}

abbrev bundle : ItemNbt
bundle =
    ("Name", str "minecraft:bundle")
    ∷ ("tag", compound (("storage_item_component_content", sequence []) ∷ []))
    ∷ []

abbrev apple : ItemNbt
apple = ("Name", str "minecraft:apple") ∷ []

abbrev player : PlayerInventorySnapshot
player = record {
  player_name = "Steve";
  xuid = "";
  selected_hotbar_slot = pos 0;
  main_size = pos 36;
  armor_size = pos 4;
  offhand_size = pos 1;
  ender_chest_size = pos 27;
  main =
      record { slot = pos 2; item = apple; revision = pos 0 }
      ∷ record { slot = pos 7; item = bundle; revision = pos 0 }
      ∷ [];
  armor = [];
  offhand = [];
  ender_chest = [];
  revision = pos 12;
}

abbrev rules : StorageItemRules
rules = record {
  slot_capacity = 64;
  max_weight = 64;
  nested_storage_item_weight = 4;
  allow_nested_storage_items = true;
  reject_shulker_boxes = true;
  allowed_items = [];
  banned_items = [];
}

abbrev apple_patch : PlayerInventoryPatch
apple_patch = record (empty_player_patch (pos 12)) { main_updates = (pos 3, apple) ∷ [] }

patch_test : patch_player_item player "main" (int (pos 3)) (compound apple) ≡ ok apple_patch
unfolding patch_player_item section_of check_player_slot section_size put_update as_dict as_int
    entries of_entries Dict.insert string_eq
patch_test = refl

patch_player_item-IsSectionPatch_example :
    (section : PlayerInventorySection) × (n : ℤ) × (item : ItemNbt) × (section_of "main"
      ≡ ok section)
    × (as_int (int (pos 3)) ≡ some n)
    × (InSection player section n)
    × (as_dict (compound apple) ≡ some item)
    × IsSectionPatch player section ((n, item) ∷ []) [] apple_patch
patch_player_item-IsSectionPatch_example =
    patch_player_item-IsSectionPatch player "main" (int (pos 3)) (compound apple) apple_patch
      patch_test

clear_test :
    clear_player_item player "main" (int (pos 2))
    ≡ ok (record (empty_player_patch (pos 12)) { main_removals = pos 2 ∷ [] })
unfolding clear_player_item section_of check_player_slot section_size put_removal as_int string_eq
clear_test = refl

clear_player_item-IsSectionPatch_example :
    (section : PlayerInventorySection) × (n : ℤ) × (section_of "main" ≡ ok section)
    × (as_int (int (pos 2)) ≡ some n)
    × (InSection player section n)
    × IsSectionPatch player section []
        (n ∷ [])
        (record (empty_player_patch (pos 12)) { main_removals = pos 2 ∷ [] })
clear_player_item-IsSectionPatch_example =
    clear_player_item-IsSectionPatch player "main" (int (pos 2))
      (record (empty_player_patch (pos 12)) { main_removals = pos 2 ∷ [] }) clear_test

open_test :
    open_storage_item player "main" (int (pos 7)) rules
    ≡ ok (record { item = bundle; rules = rules })
unfolding open_storage_item get_player_item section_of check_player_slot section_size section_items
    item_in open_compound mutable_contents open_tag contents_in Reading.identifier
    Reading.first_name Reading.name_in Reading.tag Reading.is_storage_item_nbt
    Reading.is_vanilla_bundle_identifier as_int as_dict as_list as_str entries elements of_entries
    of_elements get_first Dict.lookup string_eq int_eq
open_test = refl

patch_storage_item_back_example :
    (section : PlayerInventorySection) × (n : ℤ) × (p : PlayerInventoryPatch) × (section_of "main"
      ≡ ok section)
    × (as_int (int (pos 7)) ≡ some n)
    × (patch_storage_item player "main" (int (pos 7)) (record { item = apple; rules = rules })
        ≡ ok p)
    × IsSectionPatch player section ((n, apple) ∷ []) [] p
patch_storage_item_back_example =
    patch_storage_item_back player "main" (int (pos 7)) rules
      (record { item = bundle; rules = rules }) (record { item = apple; rules = rules }) open_test

abbrev bundle_reference : PlayerStorageItemReference
bundle_reference = record { section = main; slot = pos 7; item = bundle; revision = pos 0 }

find_storage_items_iff_example : Has bundle_reference (find_storage_items player) ↔ (
    (section : PlayerInventorySection) × IsFound section
      (section_items player section)
      bundle_reference)
find_storage_items_iff_example = find_storage_items_iff player bundle_reference

player_from_mapping-player_mapping_example :
    player_from_mapping plain (player_mapping player) ≡ ok player
player_from_mapping-player_mapping_example = player_from_mapping-player_mapping plain player
