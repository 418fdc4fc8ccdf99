-- ===== src/Diff.antt =====
-- `BlockDataService.diff` of service.py.
pub mod Slots
pub mod Same
mod Tests
use endstone_blockdata_api.Base.{
  ℕ, String, Bool, true, false, not, ◌&&◌, Option, none, some, List, [], ◌∷◌, ◌++◌, map, ◌==◌,
  if◌then◌else◌, Result, ok, err, value_error, string_eq, nat_eq,
}
use endstone_blockdata_api.Base.Int.{ℤ, int_eq}
use endstone_blockdata_api.Base.Lists.{length}
use endstone_blockdata_api.Base.Dict
use endstone_blockdata_api.Base.Dict.{Dict}
use endstone_blockdata_api.Nbt.{ItemNbt, of_entries, compound}
use endstone_blockdata_api.Nbt.Equal.{value_eq}
use endstone_blockdata_api.Model.{
  BlockLocation, location_eq, InventoryChangeKind, added, removed, changed, InventorySlotSnapshot,
  BlockEntitySnapshot, BlockSnapshot, InventoryChange, BlockEntityAuditDelta,
}

-- `==` on mappings, and on mappings or `None`
unfoldable pub mapping_eq : ItemNbt → ItemNbt → Bool
mapping_eq d e = value_eq (compound d) (compound e)

unfoldable pub optional_eq : Option ItemNbt → Option ItemNbt → Bool
optional_eq none none = true
optional_eq none (some e) = false
optional_eq (some d) none = false
optional_eq (some d) (some e) = mapping_eq d e

-- `{s.slot: s.item for s in …}`
abbrev pub slot_item : InventorySlotSnapshot → ℤ × ItemNbt
slot_item s = (s.slot, s.item)

unfoldable pub items_of : Option BlockEntitySnapshot → Dict ℤ ItemNbt
items_of none = []
items_of (some e) = Dict.update [] (map slot_item e.inventory)

-- The first loop: what `right` lacks and what differs there.
unfoldable pub left_changes : Dict ℤ ItemNbt → Dict ℤ ItemNbt → List InventoryChange
left_changes [] right = []
left_changes ((slot, item) ∷ left) right =
    let rest = left_changes left right in
    elim (Dict.lookup slot right) [
      | none ↦ record { slot = slot; kind = removed; before = some item; after = none } ∷ rest
      | some other ↦
          if mapping_eq item other
          then rest
          else record { slot = slot; kind = changed; before = some item; after = some other } ∷ rest
    ]

-- The second loop: what `left` lacks.
unfoldable pub right_changes : Dict ℤ ItemNbt → Dict ℤ ItemNbt → List InventoryChange
right_changes left [] = []
right_changes left ((slot, item) ∷ right) =
    let rest = right_changes left right in
    elim (Dict.lookup slot left) [
      | none ↦ record { slot = slot; kind = added; before = none; after = some item } ∷ rest
      | some _ ↦ rest
    ]

abbrev pub nbt_of : Option BlockEntitySnapshot → Option ItemNbt
nbt_of none = none
nbt_of (some e) = some e.nbt

unfoldable pub diff : BlockSnapshot → BlockSnapshot → Result BlockEntityAuditDelta
diff before after =
    if before.location == after.location
    then ok (record {
      location = before.location;
      before_revision = before.revision;
      after_revision = after.revision;
      block_changed = not (
          before.type == after.type
          && (before.runtime_id == after.runtime_id && mapping_eq before.states after.states));
      actor_nbt_changed =
          not (optional_eq (nbt_of before.block_entity) (nbt_of after.block_entity));
      inventory_changes =
          let left = items_of before.block_entity in
          let right = items_of after.block_entity in
          left_changes left right ++ right_changes left right;
    })
    else err (value_error "snapshot locations differ")
