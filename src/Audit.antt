-- ===== src/Audit.antt =====
-- The audit flow of the package: a capture, a patch, a second capture, and their `diff`.
mod Tests
use mathlib.Core.Option
use mathlib.Core.Path.{ap₂}
use endstone_blockdata_api.Base.{
  ℕ, ◌≡◌, ◌≢◌, refl, ap, sym, ◌∙◌, String, Bool, true, false, Option, none, some, List, [], ◌∷◌,
  map, ◌==◌, ==_refl, arith, if◌then◌else◌, Result, ok, then_return,
}
use endstone_blockdata_api.Base.Int.{ℤ, int_eq}
use endstone_blockdata_api.Base.Dict
use endstone_blockdata_api.Base.Dict.{Dict, NodupKeys}
use endstone_blockdata_api.Nbt.{ItemNbt, Value}
use endstone_blockdata_api.Model.{
  ConflictPolicy, BlockLocation, location_eq, InventorySlotSnapshot, BlockEntitySnapshot,
  BlockSnapshot, BlockPatch, refresh_revision,
}
use endstone_blockdata_api.Memory.{Blocks, by_slot, slots_of, capture, apply, patch_snapshot}
use endstone_blockdata_api.Memory.Inventory.{
  item_at, inventory_of, entity_inventory, patched_item, item_at-patch_snapshot,
}
use endstone_blockdata_api.Memory.Laws.{patched, capture-apply, apply_succeeded}
use endstone_blockdata_api.Memory.Sound.{IsSound, AllSound, capture-IsSound, apply-AllSound}
use endstone_blockdata_api.Diff.{slot_item, items_of, diff}
use endstone_blockdata_api.Diff.Slots.{changes_at, expected_at, diff-changes_at}

-- The dict of items and the dict of snapshots, filed by slot, show the same items.
abbrev items : Dict ℤ InventorySlotSnapshot → Dict ℤ ItemNbt
items [] = []
items ((k, x) ∷ d) = (k, x.item) ∷ items d

insert-items :
    (k : ℤ) (x : InventorySlotSnapshot) (d : Dict ℤ InventorySlotSnapshot)
    → items (Dict.insert k x d) ≡ Dict.insert k x.item (items d)
unfolding Dict.insert
insert-items k x [] = refl
insert-items k x ((j, y) ∷ d) = ground (arith, insert-items k x d)

update-items :
    (d : Dict ℤ InventorySlotSnapshot) (inventory : List InventorySlotSnapshot)
    → items (Dict.update d (map by_slot inventory))
      ≡ Dict.update (items d) (map slot_item inventory)
unfolding Dict.update
update-items d [] = refl
update-items d (x ∷ xs) =
    update-items (Dict.insert x.slot x d) xs
    ∙ ap (λ m. Dict.update m (map slot_item xs)) (insert-items x.slot x d)

lookup-items :
    (j : ℤ) (d : Dict ℤ InventorySlotSnapshot)
    → Dict.lookup j (items d) ≡ Option.map (λ x. x.item) (Dict.lookup j d)
unfolding Dict.lookup
lookup-items j [] = refl
lookup-items j ((k, x) ∷ d) = ground (arith, lookup-items j d)

lookup-entity_items :
    (e : Option BlockEntitySnapshot) (j : ℤ)
    → Dict.lookup j (items_of e) ≡ item_at (entity_inventory e) j
unfolding items_of item_at slots_of Dict.lookup Dict.update
lookup-entity_items none j = refl
lookup-entity_items (some e) j =
    ap (Dict.lookup j) (sym (update-items [] e.inventory))
    ∙ lookup-items j (Dict.update [] (map by_slot e.inventory))

-- The item that a capture shows at a slot.
unfoldable pub shown : (Value → ℕ) → BlockLocation → Blocks → ℤ → Option ItemNbt
shown digest loc blocks j = item_at (inventory_of (capture digest loc blocks)) j

module _ (digest : Value → ℕ) where
  item_at-refresh :
      (s : BlockSnapshot) (j : ℤ)
      → item_at (inventory_of (refresh_revision digest s)) j ≡ item_at (inventory_of s) j
  unfolding refresh_revision
  item_at-refresh s j = refl

  -- After a patch that was applied, a capture shows at each slot the item of the patch's update,
  -- or nothing where the patch only removes the slot, or the item that was there before.
  pub shown-apply :
      (p : BlockPatch) (policy : ConflictPolicy) (blocks : Blocks) (j : ℤ)
      → NodupKeys p.inventory_updates
      → (apply digest p policy blocks).0.succeeded ≡ true
      → shown digest p.location (apply digest p policy blocks).1 j
        ≡ patched_item p j (shown digest p.location blocks j)
  unfolding shown patched
  shown-apply p policy blocks j u done =
      let s = capture digest p.location blocks in
      let now : capture digest p.location (apply digest p policy blocks).1
          ≡ patched digest p blocks =
        (capture-apply digest p policy blocks p.location done).0 ∙ rw ==_refl in
      ap (λ t. item_at (inventory_of t) j) now
      ∙ item_at-refresh (patch_snapshot p s) j
      ∙ item_at-patch_snapshot p u j s

  lookup-shown :
      (loc : BlockLocation) (blocks : Blocks) (j : ℤ)
      → Dict.lookup j (items_of (capture digest loc blocks).block_entity)
        ≡ shown digest loc blocks j
  unfolding shown
  lookup-shown loc blocks j = lookup-entity_items (capture digest loc blocks).block_entity j

  -- The diff of the captures before and after an applied patch reports, of each slot, the change
  -- from its item before to the item that the patch leaves there, and nothing where these are
  -- equal.
  pub diff-apply :
      (p : BlockPatch) (policy : ConflictPolicy) (blocks : Blocks) (j : ℤ)
      → AllSound digest blocks
      → NodupKeys p.inventory_updates
      → (apply digest p policy blocks).0.succeeded ≡ true
      → let before = capture digest p.location blocks in
        let after = capture digest p.location (apply digest p policy blocks).1 in
        then_return (λ d. changes_at j d.inventory_changes) (diff before after)
        ≡ ok (
            expected_at j
              (shown digest p.location blocks j)
              (patched_item p j (shown digest p.location blocks j)))
  diff-apply p policy blocks j sound u done =
      let after = (apply digest p policy blocks).1 in
      let here = capture-IsSound digest p.location blocks sound in
      let there =
        capture-IsSound digest p.location after (apply-AllSound digest p policy blocks sound) in
      diff-changes_at (capture digest p.location blocks) (capture digest p.location after) j
      ∙ rw (here.placed, there.placed, ==_refl)
          (ap ok (
            ap₂ (expected_at j) (lookup-shown p.location blocks j)
              (lookup-shown p.location after j ∙ shown-apply p policy blocks j u done)))
