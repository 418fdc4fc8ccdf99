-- ===== src/Memory.antt =====
-- `InMemoryAdapter` of service.py. The lock makes each call one step, so a call is a function from
-- the adapter's blocks to its result and the blocks after it.
pub mod Inventory
pub mod Laws
pub mod Invariant
pub mod Sound
pub mod Sample
mod Tests
use mathlib.Core.Option
use mathlib.Core.List.{foldl}
use endstone_blockdata_api.Base.{
  ℕ, ◌≡◌, String, Bool, true, false, not, ◌&&◌, ◌||◌, Option, none, some, List, [], ◌∷◌, ◌++◌, map,
  ◌==◌, if◌then◌else◌, string_eq,
}
use endstone_blockdata_api.Base.Int.{ℤ, pos, ◌+ℤ◌, max_ℤ, int_eq}
use endstone_blockdata_api.Base.Dict
use endstone_blockdata_api.Base.Dict.{Dict, keys, values}
use endstone_blockdata_api.Nbt.{Value, ItemNbt}
use endstone_blockdata_api.Model.{
  ConflictPolicy, fail_if_changed, force, BlockLocation, location_eq, InventorySlotSnapshot,
  BlockEntitySnapshot, BlockSnapshot, default_snapshot, refresh_revision, BlockPatch, ApplyResult,
  is_empty,
}

-- `self._blocks`
abbrev pub Blocks : Type 0
Blocks = Dict BlockLocation BlockSnapshot

-- `{x.slot: x for x in inventory}`
abbrev pub by_slot : InventorySlotSnapshot → ℤ × InventorySlotSnapshot
by_slot x = (x.slot, x)

unfoldable pub slots_of : List InventorySlotSnapshot → Dict ℤ InventorySlotSnapshot
slots_of inventory = Dict.update [] (map by_slot inventory)

-- `InventorySlotSnapshot(slot, item)` for each entry of the updates
abbrev pub new_slots : Dict ℤ ItemNbt → Dict ℤ InventorySlotSnapshot
new_slots [] = []
new_slots ((slot, item) ∷ d) =
    (slot, record { slot = slot; item = item; revision = pos 0 }) ∷ new_slots d

unfoldable pub patch_slots :
    BlockPatch → Dict ℤ InventorySlotSnapshot → Dict ℤ InventorySlotSnapshot
patch_slots p slots =
    Dict.update (Dict.erase_all p.inventory_removals slots) (new_slots p.inventory_updates)

abbrev pub touches_inventory : BlockPatch → Bool
touches_inventory p = not (is_empty p.inventory_updates) || not (is_empty p.inventory_removals)

abbrev pub touches_entity : BlockPatch → Bool
touches_entity p =
    not (is_empty p.nbt_updates) || not (is_empty p.nbt_removals) || touches_inventory p

-- `set(p.inventory_updates) | set(p.inventory_removals)`
abbrev pub touched_slots : BlockPatch → List ℤ
touched_slots p = keys p.inventory_updates ++ p.inventory_removals

-- `max(size, max(touched) + 1)`, and `size` where nothing is touched
unfoldable pub grow : ℤ → List ℤ → ℤ
grow size [] = size
grow size (s ∷ ss) = grow (max_ℤ size (s +ℤ pos 1)) ss

abbrev pub generic_entity : BlockEntitySnapshot
generic_entity = record {
  type = "generic";
  nbt = [];
  raw_snbt = "";
  canonical_nbt = true;
  inventory = [];
  is_container = false;
  container_size = pos 0;
}

abbrev pub entity_or_generic : Option BlockEntitySnapshot → BlockEntitySnapshot
entity_or_generic none = generic_entity
entity_or_generic (some e) = e

unfoldable pub patch_entity : BlockPatch → BlockEntitySnapshot → BlockEntitySnapshot
patch_entity p e = record e {
  nbt = Dict.erase_all p.nbt_removals (Dict.update e.nbt p.nbt_updates);
  inventory = values (patch_slots p (slots_of e.inventory));
  is_container = if touches_inventory p then true else e.is_container;
  container_size =
      if touches_inventory p then grow e.container_size (touched_slots p) else e.container_size;
}

unfoldable pub patch_block : BlockPatch → BlockSnapshot → BlockSnapshot
patch_block p s = record s {
  type = elim p.replacement_type [ some t ↦ t | none ↦ s.type ];
  states = Dict.erase_all p.state_removals (Dict.update s.states p.state_updates);
}

unfoldable pub patch_snapshot : BlockPatch → BlockSnapshot → BlockSnapshot
unfolding patch_block
patch_snapshot p s =
    if touches_entity p
    then record (patch_block p s) {
      block_entity = some (patch_entity p (entity_or_generic s.block_entity));
      block_entity_status = "captured";
    }
    else patch_block p s

module _ (digest : Value → ℕ) where
  -- `deepcopy(self._blocks.get(loc, BlockSnapshot(loc)))`
  unfoldable pub stored : BlockLocation → Blocks → BlockSnapshot
  stored loc blocks = elim (Dict.lookup loc blocks) [ some s ↦ s | none ↦ default_snapshot loc ]

  unfoldable pub capture : BlockLocation → Blocks → BlockSnapshot
  unfolding stored
  capture loc blocks = refresh_revision digest (stored loc blocks)

  -- The revision test of `apply`.
  unfoldable pub conflicts : BlockPatch → ConflictPolicy → BlockSnapshot → Bool
  conflicts p force s = false
  conflicts p policy s = elim p.expected_revision [ none ↦ false | some r ↦ not (r == s.revision) ]

  abbrev pub is_supported : ConflictPolicy → Bool
  is_supported fail_if_changed = true
  is_supported force = true
  is_supported _ = false

  unfoldable pub apply : BlockPatch → ConflictPolicy → Blocks → ApplyResult × Blocks
  unfolding conflicts
  apply p policy blocks =
      if not (is_supported policy)
      then (
        record {
          succeeded = false;
          status = "unsupported";
          message = "conflict policy is not implemented; use FailIfChanged or Force";
          resulting_revision = pos 0;
        },
        blocks,
      )
      else if conflicts p policy (capture p.location blocks)
      then (
        record {
          succeeded = false;
          status = "conflict";
          message = "revision changed";
          resulting_revision = (capture p.location blocks).revision;
        },
        blocks,
      )
      else let s = refresh_revision digest (patch_snapshot p (capture p.location blocks)) in
        (
          record {
            succeeded = true;
            status = "applied";
            message = "applied";
            resulting_revision = s.revision;
          },
          Dict.insert p.location s blocks,
        )
