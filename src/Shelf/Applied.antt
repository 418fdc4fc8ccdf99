-- ===== src/Shelf/Applied.antt =====
-- A shelf patch sent to the adapter that the shelf was captured from.
use endstone_blockdata_api.Base.{
  ℕ, ◌≡◌, refl, ap, sym, subst, ◌∙◌, true, none, some, ==_refl, arith, if◌then◌else◌, ok, ltb,
}
use endstone_blockdata_api.Base.Int.{pos, int_eq}
use endstone_blockdata_api.Base.Lists.{get_elem?}
use endstone_blockdata_api.Base.Dict.{NodupKeys}
use endstone_blockdata_api.Nbt.{Value}
use endstone_blockdata_api.Model.{BlockPatch, BlockLocation, fail_if_changed}
use endstone_blockdata_api.Memory.{Blocks, capture, apply}
use endstone_blockdata_api.Memory.Inventory.{patched_item}
use endstone_blockdata_api.Memory.Laws.{patched, apply_compare_and_swap, capture-apply}
use endstone_blockdata_api.Memory.Sound.{AllSound, capture-IsSound}
use endstone_blockdata_api.Audit.{shown, shown-apply}
use endstone_blockdata_api.Shelf.{ShelfView, capacity, open_shelf, slots}
use endstone_blockdata_api.Shelf.Slots.{IsShelf, open_shelf_iff}
use endstone_blockdata_api.Shelf.Contents.{get_elem?-slots}
use endstone_blockdata_api.Shelf.Patches.{IsShelfPatch}
use endstone_blockdata_api.Shelf.Patched.{new_actor, patch_snapshot-IsShelf}

module _ (digest : Value → ℕ) (v : ShelfView) (p : BlockPatch) (w : IsShelfPatch v p)
    (blocks : Blocks) (loc : BlockLocation) (sound : AllSound digest blocks)
    (opened : open_shelf (capture digest loc blocks) ≡ ok v) where
  abbrev after : Blocks
  after = (apply digest p fail_if_changed blocks).1

  view_of : v.snapshot ≡ capture digest loc blocks
  view_of = ((open_shelf_iff (capture digest loc blocks) v).0 opened).0

  patch_location : p.location ≡ loc
  patch_location =
      w.located ∙ ap (λ s. s.location) view_of ∙ (capture-IsSound digest loc blocks sound).placed

  same_revision : v.snapshot.revision ≡ (capture digest p.location blocks).revision
  same_revision =
      ap (λ s. s.revision) view_of
      ∙ ap (λ l. (capture digest l blocks).revision) (sym patch_location)

  shelf_patch_succeeds : (apply digest p fail_if_changed blocks).0.succeeded ≡ true
  shelf_patch_succeeds =
      ground
        (arith, apply_compare_and_swap digest p blocks v.snapshot.revision w.expects, same_revision)

  capture_after : capture digest loc after ≡ patched digest p blocks
  capture_after =
      (capture-apply digest p fail_if_changed blocks loc shelf_patch_succeeds).0
      ∙ rw (patch_location, ==_refl)

  abbrev new_view : ShelfView
  new_view = record {
    snapshot = capture digest loc after;
    actor = new_actor digest v p w;
    kind = v.kind;
  }

  before-IsShelf : IsShelf v.kind v.actor (capture digest p.location blocks)
  before-IsShelf =
      subst (λ l. IsShelf v.kind v.actor (capture digest l blocks)) (sym patch_location)
        ((open_shelf_iff (capture digest loc blocks) v).0 opened).1

  after-IsShelf : IsShelf v.kind (new_actor digest v p w) (capture digest loc after)
  unfolding patched
  after-IsShelf =
      subst (IsShelf v.kind (new_actor digest v p w)) (sym capture_after)
        (patch_snapshot-IsShelf digest v p w (capture digest p.location blocks) before-IsShelf)

  opened_after : open_shelf (capture digest loc after) ≡ ok new_view
  opened_after = (open_shelf_iff (capture digest loc after) new_view).1 (refl, after-IsShelf)

  slots_after :
      (u : NodupKeys p.inventory_updates) (i : ℕ)
      → get_elem? (slots new_view) i ≡ (
          if ltb i (capacity v)
          then some (patched_item p (pos i) (shown digest loc blocks (pos i)))
          else none)
  unfolding capacity shown
  slots_after u i =
      get_elem?-slots (capture digest loc after) new_view opened_after i
      ∙ ap (λ o. if ltb i (capacity v) then some o else none)
          (subst
            (λ l.
              shown digest l after (pos i) ≡ patched_item p (pos i) (shown digest l blocks (pos i)))
            patch_location
            (shown-apply digest p fail_if_changed blocks (pos i) u shelf_patch_succeeds))

-- A patch that an opened shelf view built, sent to the adapter while the shelf is unchanged, is
-- applied; the block is then a complete shelf of the same kind, and each of its slots holds what
-- the patch leaves there.
pub apply-IsShelfPatch :
    (digest : Value → ℕ) (v : ShelfView) (p : BlockPatch) (blocks : Blocks) (loc : BlockLocation)
    → AllSound digest blocks
    → open_shelf (capture digest loc blocks) ≡ ok v
    → IsShelfPatch v p
    → NodupKeys p.inventory_updates
    → let (result, after) = apply digest p fail_if_changed blocks in
      (result.succeeded ≡ true)
      × (t : ShelfView) × (open_shelf (capture digest loc after) ≡ ok t)
      × (t.kind ≡ v.kind)
      × ((i : ℕ)
          → get_elem? (slots t) i ≡ (
              if ltb i (capacity v)
              then some (patched_item p (pos i) (shown digest loc blocks (pos i)))
              else none))
apply-IsShelfPatch digest v p blocks loc sound opened w u = (
  shelf_patch_succeeds digest v p w blocks loc sound opened,
  new_view digest v p w blocks loc sound opened,
  opened_after digest v p w blocks loc sound opened,
  refl,
  slots_after digest v p w blocks loc sound opened u,
)
