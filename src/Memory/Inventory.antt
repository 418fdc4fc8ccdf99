-- ===== src/Memory/Inventory.antt =====
-- What a patch does to an inventory, slot by slot.
use mathlib.Core.Option
use mathlib.Core.Option.{or_else}
use endstone_blockdata_api.Base.{
  ◌≡◌, refl, ap, subst, ◌∙◌, false, Option, none, some, List, [], ◌∷◌, map, arith, contains,
  if◌then◌else◌, Bool-cases, inl, inr,
}
use endstone_blockdata_api.Base.Int.{ℤ, int_eq}
use endstone_blockdata_api.Base.Lists.{All}
use endstone_blockdata_api.Base.Dict
use endstone_blockdata_api.Base.Dict.{Dict, NodupKeys, AllKeys, keys, values}
use endstone_blockdata_api.Nbt.{ItemNbt}
use endstone_blockdata_api.Model.{
  InventorySlotSnapshot, BlockEntitySnapshot, BlockSnapshot, BlockPatch,
}
use endstone_blockdata_api.Memory.{
  by_slot, slots_of, new_slots, patch_slots, patch_entity, patch_snapshot, entity_or_generic,
  touches_entity, patch_block,
}

abbrev pub Slots : Type 0
Slots = Dict ℤ InventorySlotSnapshot

-- Each snapshot is filed under its own slot.
abbrev pub IsKeyed : Slots → Type 0
IsKeyed [] = Unit
IsKeyed ((k, x) ∷ d) = (x.slot ≡ k) × IsKeyed d

insert-IsKeyed :
    (x : InventorySlotSnapshot) (d : Slots) → IsKeyed d → IsKeyed (Dict.insert x.slot x d)
unfolding Dict.insert
insert-IsKeyed x [] h = (refl, tt)
insert-IsKeyed x ((j, y) ∷ d) h = ground (arith, insert-IsKeyed x d h.1)

erase-IsKeyed : (k : ℤ) (d : Slots) → IsKeyed d → IsKeyed (Dict.erase k d)
unfolding Dict.erase
erase-IsKeyed k [] h = tt
erase-IsKeyed k ((j, y) ∷ d) h = ground (arith, erase-IsKeyed k d h.1)

erase_all-IsKeyed : (ks : List ℤ) (d : Slots) → IsKeyed d → IsKeyed (Dict.erase_all ks d)
unfolding Dict.erase_all
erase_all-IsKeyed [] d h = h
erase_all-IsKeyed (k ∷ ks) d h = erase_all-IsKeyed ks _ (erase-IsKeyed k d h)

update-IsKeyed : (d u : Slots) → IsKeyed d → IsKeyed u → IsKeyed (Dict.update d u)
unfolding Dict.update
update-IsKeyed d [] h hu = h
update-IsKeyed d ((k, x) ∷ u) h hu =
    update-IsKeyed (Dict.insert k x d) u
      (subst (λ j. IsKeyed (Dict.insert j x d)) hu.0 (insert-IsKeyed x d h)) hu.1

new_slots-IsKeyed : (u : Dict ℤ ItemNbt) → IsKeyed (new_slots u)
new_slots-IsKeyed [] = tt
new_slots-IsKeyed ((k, i) ∷ u) = (refl, new_slots-IsKeyed u)

by_slot-IsKeyed : (inventory : List InventorySlotSnapshot) → IsKeyed (map by_slot inventory)
by_slot-IsKeyed [] = tt
by_slot-IsKeyed (x ∷ xs) = (refl, by_slot-IsKeyed xs)

pub slots_of-IsKeyed : (inventory : List InventorySlotSnapshot) → IsKeyed (slots_of inventory)
unfolding slots_of
slots_of-IsKeyed inventory = update-IsKeyed [] _ tt (by_slot-IsKeyed inventory)

pub patch_slots-IsKeyed : (p : BlockPatch) (d : Slots) → IsKeyed d → IsKeyed (patch_slots p d)
unfolding patch_slots
patch_slots-IsKeyed p d h =
    update-IsKeyed _ _ (erase_all-IsKeyed p.inventory_removals d h)
      (new_slots-IsKeyed p.inventory_updates)

pub patch_slots-NodupKeys : (p : BlockPatch) (d : Slots) → NodupKeys d → NodupKeys (patch_slots p d)
unfolding patch_slots
patch_slots-NodupKeys p d h =
    Dict.update-NodupKeys _ _ (Dict.erase_all-NodupKeys p.inventory_removals d h)

pub slots_of-NodupKeys : (inventory : List InventorySlotSnapshot) → NodupKeys (slots_of inventory)
unfolding slots_of
slots_of-NodupKeys inventory = Dict.update-NodupKeys [] _ tt

-- The values of a keyed dict, filed by their slots, are the dict.
pub by_slot-values : (d : Slots) → IsKeyed d → map by_slot (values d) ≡ d
by_slot-values [] h = refl
by_slot-values ((k, x) ∷ d) h = λ i. (h.0 i, x) ∷ by_slot-values d h.1 i

-- What the dict comprehension over an inventory shows at a slot.
unfoldable pub item_at : List InventorySlotSnapshot → ℤ → Option ItemNbt
item_at inventory j = Option.map (λ x. x.item) (Dict.lookup j (slots_of inventory))

lookup-slots_of-values :
    (d : Slots) (j : ℤ)
    → IsKeyed d
    → NodupKeys d
    → Dict.lookup j (slots_of (values d)) ≡ Dict.lookup j d
unfolding slots_of or_else
lookup-slots_of-values d j k u =
    rw (by_slot-values d k)
      (ground (arith, Dict.lookup-update j [] d u, Dict.lookup-nil {V = InventorySlotSnapshot} j))

lookup-new_slots :
    (u : Dict ℤ ItemNbt) (j : ℤ)
    → Option.map (λ x. x.item) (Dict.lookup j (new_slots u)) ≡ Dict.lookup j u
unfolding Dict.lookup
lookup-new_slots [] j = refl
lookup-new_slots ((k, i) ∷ u) j = ground (arith, lookup-new_slots u j)

new_slots-NodupKeys : (u : Dict ℤ ItemNbt) → NodupKeys u → NodupKeys (new_slots u)
new_slots-NodupKeys [] h = tt
new_slots-NodupKeys ((k, i) ∷ u) h =
    (ground (arith, h.0, lookup-new_slots u k), new_slots-NodupKeys u h.1)

-- The item at a slot once a patch is applied, from the item before it: an update wins over a
-- removal of the same slot.
abbrev pub patched_item : BlockPatch → ℤ → Option ItemNbt → Option ItemNbt
patched_item p j before =
    or_else (Dict.lookup j p.inventory_updates)
      (if contains p.inventory_removals j then none else before)

module _ (p : BlockPatch) (u : NodupKeys p.inventory_updates) where
  lookup-patch_slots :
      (d : Slots) (j : ℤ)
      → Option.map (λ x. x.item) (Dict.lookup j (patch_slots p d))
        ≡ patched_item p j (Option.map (λ x. x.item) (Dict.lookup j d))
  unfolding patch_slots or_else
  lookup-patch_slots d j = ground (
    arith,
    Dict.lookup-update j (Dict.erase_all p.inventory_removals d) (new_slots p.inventory_updates)
        (new_slots-NodupKeys p.inventory_updates u),
    Dict.lookup-erase_all j p.inventory_removals d,
    lookup-new_slots p.inventory_updates j,
  )

  pub item_at-patch_entity :
      (e : BlockEntitySnapshot) (j : ℤ)
      → item_at (patch_entity p e).inventory j ≡ patched_item p j (item_at e.inventory j)
  unfolding patch_entity item_at
  item_at-patch_entity e j =
      let d = slots_of e.inventory in
      rw
        (lookup-slots_of-values (patch_slots p d) j
          (patch_slots-IsKeyed p d (slots_of-IsKeyed e.inventory))
          (patch_slots-NodupKeys p d (slots_of-NodupKeys e.inventory)))
        (lookup-patch_slots d j)

abbrev pub entity_inventory : Option BlockEntitySnapshot → List InventorySlotSnapshot
entity_inventory none = []
entity_inventory (some e) = e.inventory

-- The inventory that a snapshot shows, empty where there is no block entity.
abbrev pub inventory_of : BlockSnapshot → List InventorySlotSnapshot
inventory_of s = entity_inventory s.block_entity

module _ (p : BlockPatch) (u : NodupKeys p.inventory_updates) (j : ℤ) where
  item_at-entity_or_generic :
      (s : BlockSnapshot)
      → item_at (entity_or_generic s.block_entity).inventory j ≡ item_at (inventory_of s) j
  item_at-entity_or_generic s = ground arith

  patched_item-untouched :
      (before : Option ItemNbt) → touches_entity p ≡ false → patched_item p j before ≡ before
  unfolding or_else Dict.lookup
  patched_item-untouched before h = ground arith

  pub item_at-patch_snapshot :
      (s : BlockSnapshot)
      → item_at (inventory_of (patch_snapshot p s)) j
        ≡ patched_item p j (item_at (inventory_of s) j)
  unfolding patch_snapshot patch_block
  item_at-patch_snapshot s = elim (Bool-cases (touches_entity p)) [
    | inl touched ↦ rw touched (
        item_at-patch_entity p u (entity_or_generic s.block_entity) j
        ∙ ap (patched_item p j) (item_at-entity_or_generic s))
    | inr untouched ↦ rw (untouched, patched_item-untouched _ untouched)
  ]

-- Slots in a dict that is patched come from before or from the updates.
new_slots-AllKeys : (P : ℤ → Type 0) (u : Dict ℤ ItemNbt) → All P (keys u) → AllKeys P (new_slots u)
new_slots-AllKeys P [] h = tt
new_slots-AllKeys P ((k, v) ∷ u) h = (h.0, new_slots-AllKeys P u h.1)

pub patched_slots-eq :
    (p : BlockPatch) (e : BlockEntitySnapshot)
    → map by_slot (patch_entity p e).inventory ≡ patch_slots p (slots_of e.inventory)
unfolding patch_entity
patched_slots-eq p e = by_slot-values _ (patch_slots-IsKeyed p _ (slots_of-IsKeyed e.inventory))

pub patch_entity-AllKeys :
    (P : ℤ → Type 0) (p : BlockPatch) (e : BlockEntitySnapshot)
    → AllKeys P (map by_slot e.inventory)
    → All P (keys p.inventory_updates)
    → AllKeys P (map by_slot (patch_entity p e).inventory)
unfolding patch_slots slots_of
patch_entity-AllKeys P p e h u = rw (patched_slots-eq p e) (
    Dict.update-AllKeys P (Dict.erase_all p.inventory_removals (slots_of e.inventory))
      (new_slots p.inventory_updates)
      (Dict.erase_all-AllKeys P p.inventory_removals (slots_of e.inventory)
        (Dict.update-AllKeys P [] (map by_slot e.inventory) tt h))
      (new_slots-AllKeys P p.inventory_updates u))

pub patch_entity-NodupKeys :
    (p : BlockPatch) (e : BlockEntitySnapshot)
    → NodupKeys (map by_slot (patch_entity p e).inventory)
patch_entity-NodupKeys p e =
    rw (patched_slots-eq p e) (patch_slots-NodupKeys p _ (slots_of-NodupKeys e.inventory))
