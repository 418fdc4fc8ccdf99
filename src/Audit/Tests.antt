-- ===== src/Audit/Tests.antt =====
-- The audit flow at concrete data: a patch to a shelf that holds bread.
use endstone_blockdata_api.Base.{◌≡◌, refl, true, none, ok, then_return}
use endstone_blockdata_api.Base.Int.{pos}
use endstone_blockdata_api.Base.Dict
use endstone_blockdata_api.Nbt.Sample.{weight}
use endstone_blockdata_api.Model.{fail_if_changed}
use endstone_blockdata_api.Memory.{capture, apply}
use endstone_blockdata_api.Memory.Inventory.{patched_item}
use endstone_blockdata_api.Memory.Sample.{
  vault, fill_vault, run_apply, shelf_blocks, shelf_blocks-AllSound,
}
use endstone_blockdata_api.Diff.{diff}
use endstone_blockdata_api.Diff.Slots.{changes_at, expected_at}
use endstone_blockdata_api.Audit.{shown, shown-apply, diff-apply}

patch_succeeds : (apply weight (fill_vault none) fail_if_changed shelf_blocks).0.succeeded ≡ true
unfolding run_apply
patch_succeeds = refl

shown-apply_example :
    shown weight vault (apply weight (fill_vault none) fail_if_changed shelf_blocks).1 (pos 0)
    ≡ patched_item (fill_vault none) (pos 0) (shown weight vault shelf_blocks (pos 0))
unfolding Dict.lookup
shown-apply_example =
    shown-apply weight (fill_vault none) fail_if_changed shelf_blocks (pos 0) (refl, tt)
      patch_succeeds

diff-apply_example :
    then_return
      (λ d. changes_at (pos 0) d.inventory_changes)
      (diff
        (capture weight vault shelf_blocks)
        (capture weight vault (apply weight (fill_vault none) fail_if_changed shelf_blocks).1))
    ≡ ok (
        expected_at
          (pos 0)
          (shown weight vault shelf_blocks (pos 0))
          (patched_item (fill_vault none) (pos 0) (shown weight vault shelf_blocks (pos 0))))
unfolding Dict.lookup
diff-apply_example =
    diff-apply weight (fill_vault none) fail_if_changed shelf_blocks (pos 0) shelf_blocks-AllSound
      (refl, tt) patch_succeeds
