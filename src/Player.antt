-- ===== src/Player.antt =====
-- python/endstone_blockdata/player_inventory.py: a player's inventory, by its sections.
pub mod Patches
pub mod Storage
pub mod Mapping
pub mod RoundTrip
mod Tests
use endstone_blockdata_api.Base.{
  ℕ, String, Bool, true, false, not, ◌&&◌, Option, none, some, List, [], ◌∷◌, ◌++◌, ◌==◌, map,
  if◌then◌else◌, Result, ok, err, value_error, type_error, index_error, ◌>>=◌, string_eq,
}
use endstone_blockdata_api.Base.Int.{ℤ, pos, leb_ℤ, ltb_ℤ, int_eq}
use endstone_blockdata_api.Base.Dict
use endstone_blockdata_api.Base.Dict.{Dict}
use endstone_blockdata_api.Nbt.{Value, ItemNbt, as_dict, as_int, compound}
use endstone_blockdata_api.StorageItem.Rules.{StorageItemRules}
use endstone_blockdata_api.StorageItem.Reading.{is_storage_item_nbt}
use endstone_blockdata_api.StorageItem.View.{StorageItemView, open_compound}

pub data PlayerInventorySection : Type 0 where
  main armor offhand ender_chest : PlayerInventorySection

pub record PlayerInventoryItemSnapshot : Type 0 where
  pub slot : ℤ
  pub item : ItemNbt
  pub revision : ℤ

pub record PlayerInventorySnapshot : Type 0 where
  pub player_name : String
  pub xuid : String
  pub selected_hotbar_slot : ℤ
  pub main_size : ℤ
  pub armor_size : ℤ
  pub offhand_size : ℤ
  pub ender_chest_size : ℤ
  pub main : List PlayerInventoryItemSnapshot
  pub armor : List PlayerInventoryItemSnapshot
  pub offhand : List PlayerInventoryItemSnapshot
  pub ender_chest : List PlayerInventoryItemSnapshot
  pub revision : ℤ

pub record PlayerInventoryPatch : Type 0 where
  pub expected_revision : Option ℤ
  pub main_updates : Dict ℤ ItemNbt
  pub main_removals : List ℤ
  pub armor_updates : Dict ℤ ItemNbt
  pub armor_removals : List ℤ
  pub offhand_updates : Dict ℤ ItemNbt
  pub offhand_removals : List ℤ
  pub ender_chest_updates : Dict ℤ ItemNbt
  pub ender_chest_removals : List ℤ

pub record PlayerStorageItemReference : Type 0 where
  pub section : PlayerInventorySection
  pub slot : ℤ
  pub item : ItemNbt
  pub revision : ℤ

-- `PlayerInventoryPatch(expected_revision=revision)`
abbrev pub empty_player_patch : ℤ → PlayerInventoryPatch
empty_player_patch revision = record {
  expected_revision = some revision;
  main_updates = [];
  main_removals = [];
  armor_updates = [];
  armor_removals = [];
  offhand_updates = [];
  offhand_removals = [];
  ender_chest_updates = [];
  ender_chest_removals = [];
}

-- `PlayerInventorySection(section)`; a member of the enumeration is a text with its value. The
-- message of the enumeration's own error also quotes the text.
unfoldable pub section_of : String → Result PlayerInventorySection
section_of name =
    if name == "main"
    then ok main
    else if name == "armor"
    then ok armor
    else if name == "offhand"
    then ok offhand
    else if name == "ender_chest"
    then ok ender_chest
    else err (value_error "not a valid PlayerInventorySection")

-- `capacity` and `items`, of a section that was found.
unfoldable pub section_size : PlayerInventorySnapshot → PlayerInventorySection → ℤ
section_size s main = s.main_size
section_size s armor = s.armor_size
section_size s offhand = s.offhand_size
section_size s ender_chest = s.ender_chest_size

unfoldable pub section_items :
    PlayerInventorySnapshot → PlayerInventorySection → List PlayerInventoryItemSnapshot
section_items s main = s.main
section_items s armor = s.armor
section_items s offhand = s.offhand
section_items s ender_chest = s.ender_chest

unfoldable pub section_capacity : PlayerInventorySnapshot → String → Result ℤ
section_capacity s name = do section ← section_of name; ok (section_size s section)

unfoldable pub items_in :
    PlayerInventorySnapshot → String → Result (List PlayerInventoryItemSnapshot)
items_in s name = do section ← section_of name; ok (section_items s section)

-- `_check_slot`: a slot that passes is returned as the integer that it is.
unfoldable pub check_player_slot :
    PlayerInventorySnapshot → PlayerInventorySection → Value → Result ℤ
check_player_slot s section slot = elim (as_int slot) [
  | none ↦ err (type_error "player inventory slot must be an integer")
  | some n ↦
      if leb_ℤ (pos 0) n && ltb_ℤ n (section_size s section)
      then ok n
      else err (index_error "player inventory slot is outside the section capacity")
]

-- The loop of `get_item`.
unfoldable pub item_in : ℤ → List PlayerInventoryItemSnapshot → Option ItemNbt
item_in slot [] = none
item_in slot (entry ∷ rest) = if entry.slot == slot then some entry.item else item_in slot rest

unfoldable pub get_player_item : PlayerInventorySnapshot → String → Value → Result (Option ItemNbt)
get_player_item s name slot = do
  section ← section_of name
  n ← check_player_slot s section slot
  ok (item_in n (section_items s section))

-- `self._updates(patch, section)[slot] = item`
unfoldable pub put_update :
    PlayerInventorySection → ℤ → ItemNbt → PlayerInventoryPatch → PlayerInventoryPatch
put_update main slot item p = record p { main_updates = Dict.insert slot item p.main_updates }
put_update armor slot item p = record p { armor_updates = Dict.insert slot item p.armor_updates }
put_update offhand slot item p = record p {
  offhand_updates = Dict.insert slot item p.offhand_updates;
}
put_update ender_chest slot item p = record p {
  ender_chest_updates = Dict.insert slot item p.ender_chest_updates;
}

-- `self._removals(patch, section).add(slot)`, on a patch that does not have the slot yet.
unfoldable pub put_removal :
    PlayerInventorySection → ℤ → PlayerInventoryPatch → PlayerInventoryPatch
put_removal main slot p = record p { main_removals = slot ∷ p.main_removals }
put_removal armor slot p = record p { armor_removals = slot ∷ p.armor_removals }
put_removal offhand slot p = record p { offhand_removals = slot ∷ p.offhand_removals }
put_removal ender_chest slot p = record p { ender_chest_removals = slot ∷ p.ender_chest_removals }

unfoldable pub patch_player_item :
    PlayerInventorySnapshot → String → Value → Value → Result PlayerInventoryPatch
patch_player_item s name slot value = do
  section ← section_of name
  n ← check_player_slot s section slot
  elim (as_dict value) [
    | none ↦ err (type_error "player inventory item must be an NBT mapping")
    | some item ↦ ok (put_update section n item (empty_player_patch s.revision))
  ]

unfoldable pub clear_player_item :
    PlayerInventorySnapshot → String → Value → Result PlayerInventoryPatch
clear_player_item s name slot = do
  section ← section_of name
  n ← check_player_slot s section slot
  ok (put_removal section n (empty_player_patch s.revision))

-- `storage_item`
unfoldable pub open_storage_item :
    PlayerInventorySnapshot → String → Value → StorageItemRules → Result StorageItemView
open_storage_item s name slot rules = do
  found ← get_player_item s name slot
  elim found [
    | none ↦ err (value_error "the selected player inventory slot is empty")
    | some item ↦ open_compound false rules item
  ]

unfoldable pub patch_storage_item :
    PlayerInventorySnapshot → String → Value → StorageItemView → Result PlayerInventoryPatch
patch_storage_item s name slot v = patch_player_item s name slot (compound v.item)

-- The inner loop of `find_storage_items`.
unfoldable pub storage_items_in :
    PlayerInventorySection → List PlayerInventoryItemSnapshot → List PlayerStorageItemReference
storage_items_in section [] = []
storage_items_in section (entry ∷ entries) =
    let rest = storage_items_in section entries in
    if is_storage_item_nbt entry.item
    then record {
      section = section;
      slot = entry.slot;
      item = entry.item;
      revision = entry.revision;
    }
      ∷ rest
    else rest

unfoldable pub find_storage_items : PlayerInventorySnapshot → List PlayerStorageItemReference
find_storage_items s =
    storage_items_in main s.main
    ++ (storage_items_in armor s.armor
        ++ (storage_items_in offhand s.offhand ++ storage_items_in ender_chest s.ender_chest))
