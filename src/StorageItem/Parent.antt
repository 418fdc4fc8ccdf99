-- ===== src/StorageItem/Parent.antt =====
-- `StorageItemView.patch_parent` of storage_item.py, sent to the adapter.
use mathlib.Core.Option.{or_else}
use endstone_blockdata_api.Base.{
  ℕ, ◌≡◌, refl, ap, sym, ◌∙◌, subst, true, Option, some, [], ◌∷◌, ◌==◌, if◌then◌else◌, ok, arith,
}
use endstone_blockdata_api.Base.Int.{ℤ, int_eq}
use endstone_blockdata_api.Base.Dict
use endstone_blockdata_api.Base.Dict.{NodupKeys}
use endstone_blockdata_api.Nbt.{Value, ItemNbt}
use endstone_blockdata_api.Model.{
  BlockLocation, BlockSnapshot, BlockPatch, empty_patch, fail_if_changed,
}
use endstone_blockdata_api.Memory.{Blocks, capture, apply}
use endstone_blockdata_api.Memory.Laws.{apply_compare_and_swap}
use endstone_blockdata_api.Memory.Inventory.{patched_item}
use endstone_blockdata_api.Memory.Sound.{AllSound, capture-IsSound}
use endstone_blockdata_api.Audit.{shown, shown-apply}
use endstone_blockdata_api.StorageItem.View.{StorageItemView, patch_parent}

abbrev parent_patch : StorageItemView → BlockSnapshot → ℤ → BlockPatch
parent_patch v s slot = record (empty_patch s.location s.revision) {
  inventory_updates = (slot, v.item) ∷ [];
}

patch_parent-ok :
    (v : StorageItemView) (s : BlockSnapshot) (slot : ℤ) (p : BlockPatch)
    → patch_parent v s slot ≡ ok p
    → parent_patch v s slot ≡ p
unfolding patch_parent
patch_parent-ok v s slot p h = ground (arith, h)

parent_patch-NodupKeys :
    (v : StorageItemView) (s : BlockSnapshot) (slot : ℤ)
    → NodupKeys (parent_patch v s slot).inventory_updates
unfolding Dict.lookup
parent_patch-NodupKeys v s slot = (refl, tt)

parent_patch-patched_item :
    (v : StorageItemView) (s : BlockSnapshot) (slot j : ℤ) (before : Option ItemNbt)
    → patched_item (parent_patch v s slot) j before ≡ (if j == slot then some v.item else before)
unfolding Dict.lookup or_else
parent_patch-patched_item v s slot j before = ground arith

module _ (digest : Value → ℕ) where
  succeeds :
      (loc : BlockLocation) (blocks : Blocks) (v : StorageItemView) (slot : ℤ)
      → (capture digest loc blocks).location ≡ loc
      → (apply digest
          (parent_patch v (capture digest loc blocks) slot)
          fail_if_changed
          blocks).0.succeeded
        ≡ true
  succeeds loc blocks v slot placed = ground (
    arith,
    apply_compare_and_swap digest (parent_patch v (capture digest loc blocks) slot) blocks
        (capture digest loc blocks).revision refl,
    ap (λ l. (capture digest l blocks).revision) placed,
  )

  reads :
      (loc : BlockLocation) (blocks : Blocks) (v : StorageItemView) (slot j : ℤ)
      → (capture digest loc blocks).location ≡ loc
      → shown digest loc
          (apply digest (parent_patch v (capture digest loc blocks) slot) fail_if_changed blocks).1
          j
        ≡ (if j == slot then some v.item else shown digest loc blocks j)
  reads loc blocks v slot j placed =
      let p = parent_patch v (capture digest loc blocks) slot in
      ap (λ l. shown digest l (apply digest p fail_if_changed blocks).1 j) (sym placed)
      ∙ shown-apply digest p fail_if_changed blocks j
          (parent_patch-NodupKeys v (capture digest loc blocks) slot)
          (succeeds loc blocks v slot placed)
      ∙ parent_patch-patched_item v (capture digest loc blocks) slot j _
      ∙ ap (λ l. if j == slot then some v.item else shown digest l blocks j) placed

  -- A `patch_parent` patch that was built from a capture, sent while the block is unchanged, is
  -- applied; the parent slot then shows the view's item, and every other slot what it showed
  -- before.
  pub patch_parent-apply :
      (loc : BlockLocation) (blocks : Blocks) (v : StorageItemView) (slot : ℤ) (p : BlockPatch)
      (j : ℤ)
      → AllSound digest blocks
      → patch_parent v (capture digest loc blocks) slot ≡ ok p
      → ((apply digest p fail_if_changed blocks).0.succeeded ≡ true)
        × (shown digest loc (apply digest p fail_if_changed blocks).1 j
            ≡ (if j == slot then some v.item else shown digest loc blocks j))
  patch_parent-apply loc blocks v slot p j sound built =
      let s = capture digest loc blocks in
      let placed = (capture-IsSound digest loc blocks sound).placed in
      subst
        (λ p.
          ((apply digest p fail_if_changed blocks).0.succeeded ≡ true)
          × (shown digest loc (apply digest p fail_if_changed blocks).1 j
              ≡ (if j == slot then some v.item else shown digest loc blocks j)))
        (patch_parent-ok v s slot p built)
        (succeeds loc blocks v slot placed, reads loc blocks v slot j placed)
