-- ===== src/Container.antt =====
-- `ContainerView` of service.py: a detached view of a captured block entity.
pub mod Laws
use endstone_blockdata_api.Base.{
  ℕ, String, Option, none, some, List, [], ◌∷◌, ◌==◌, if◌then◌else◌, Result, ok, err, value_error,
}
use endstone_blockdata_api.Base.Int.{ℤ, int_eq}
use endstone_blockdata_api.Base.Lists.{length}
use endstone_blockdata_api.Nbt.{ItemNbt}
use endstone_blockdata_api.Model.{
  InventorySlotSnapshot, BlockEntitySnapshot, BlockSnapshot, BlockPatch, empty_patch,
}

-- The snapshot and its block entity, which the constructor found.
pub record ContainerView : Type 0 where
  pub snapshot : BlockSnapshot
  pub entity : BlockEntitySnapshot

unfoldable pub view : BlockSnapshot → Result ContainerView
view s = elim s.block_entity [
  | some e ↦ ok (record { snapshot = s; entity = e })
  | none ↦ err (value_error "block has no block entity")
]

unfoldable pub nbt : ContainerView → ItemNbt
nbt v = v.entity.nbt

unfoldable pub raw_snbt : ContainerView → String
raw_snbt v = v.entity.raw_snbt

unfoldable pub capacity : ContainerView → ℤ
capacity v = v.entity.container_size

unfoldable pub occupied_slots : ContainerView → ℕ
occupied_slots v = length v.entity.inventory

-- `next((x.item for x in inventory if x.slot == slot), None)`
unfoldable pub first_item : List InventorySlotSnapshot → ℤ → Option ItemNbt
first_item [] slot = none
first_item (x ∷ xs) slot = if x.slot == slot then some x.item else first_item xs slot

unfoldable pub get_item : ContainerView → ℤ → Option ItemNbt
get_item v slot = first_item v.entity.inventory slot

unfoldable pub patch_item : ContainerView → ℤ → ItemNbt → BlockPatch
patch_item v slot item = record (empty_patch v.snapshot.location v.snapshot.revision) {
  inventory_updates = (slot, item) ∷ [];
}

unfoldable pub clear_item : ContainerView → ℤ → BlockPatch
clear_item v slot = record (empty_patch v.snapshot.location v.snapshot.revision) {
  inventory_removals = slot ∷ [];
}
