-- ===== src/Shelf/Patched.antt =====
-- A shelf patch on a captured shelf leaves a complete shelf of the same kind.
use endstone_blockdata_api.Base.{
  ℕ, ◌<◌, ◌≡◌, refl, sym, subst, ◌∙◌, Bool, true, false, none, some, List, [], ◌∷◌, map, contains,
  arith, if◌then◌else◌,
}
use endstone_blockdata_api.Base.Int.{ℤ, pos, max_ℤ, ◌≤ℤ◌, ◌<ℤ◌, int_eq, +ℤ_parts}
use endstone_blockdata_api.Base.Lists.{All, All-append}
use endstone_blockdata_api.Base.Dict
use endstone_blockdata_api.Base.Dict.{Dict, NodupKeys, AllKeys, keys}
use endstone_blockdata_api.Nbt.{Value}
use endstone_blockdata_api.Model.{
  InventorySlotSnapshot, BlockEntitySnapshot, BlockSnapshot, BlockPatch, refresh_revision,
}
use endstone_blockdata_api.Memory.{
  by_slot, grow, touched_slots, patch_entity, patch_block, patch_snapshot, touches_entity,
}
use endstone_blockdata_api.Memory.Inventory.{patch_entity-AllKeys, patch_entity-NodupKeys}
use endstone_blockdata_api.Shelf.{ShelfView, capacity}
use endstone_blockdata_api.Shelf.Slots.{IsFresh, IsShelf}
use endstone_blockdata_api.Shelf.Patches.{IsShelfPatch}

absent-slots :
    (k : ℤ) (occupied : List ℤ) (xs : List InventorySlotSnapshot)
    → Dict.lookup k (map by_slot xs) ≡ none
    → All (λ y. contains occupied y.slot ≡ false) xs
    → All (λ y. contains (k ∷ occupied) y.slot ≡ false) xs
absent-slots k occupied [] h f = tt
absent-slots k occupied (x ∷ xs) h f = (
  ground (arith, Dict.lookup-cons k x.slot x (map by_slot xs), f.0),
  absent-slots k occupied xs (ground (arith, Dict.lookup-cons k x.slot x (map by_slot xs))) f.1,
)

NodupKeys-IsFresh :
    (occupied : List ℤ) (xs : List InventorySlotSnapshot)
    → NodupKeys (map by_slot xs)
    → All (λ y. contains occupied y.slot ≡ false) xs
    → IsFresh occupied xs
NodupKeys-IsFresh occupied [] u f = tt
NodupKeys-IsFresh occupied (x ∷ xs) u f =
    (f.0, NodupKeys-IsFresh (x.slot ∷ occupied) xs u.1 (absent-slots x.slot occupied xs u.0 f.1))

none_occupied : (xs : List InventorySlotSnapshot) → All (λ y. contains [] y.slot ≡ false) xs
none_occupied [] = tt
none_occupied (x ∷ xs) = (refl, none_occupied xs)

abbrev Within : ℕ → ℤ → Type 0
Within n k = (pos 0 ≤ℤ k) × (k <ℤ pos n)

AllKeys-All :
    (P : ℤ → Type 0) (xs : List InventorySlotSnapshot)
    → AllKeys P (map by_slot xs)
    → All (λ x. P x.slot) xs
AllKeys-All P [] h = tt
AllKeys-All P (x ∷ xs) h = (h.0, AllKeys-All P xs h.1)

All-AllKeys :
    (P : ℤ → Type 0) (xs : List InventorySlotSnapshot)
    → All (λ x. P x.slot) xs
    → AllKeys P (map by_slot xs)
All-AllKeys P [] h = tt
All-AllKeys P (x ∷ xs) h = (h.0, All-AllKeys P xs h.1)

-- A container does not grow by writes inside it.
grow-Within : (n : ℕ) (ss : List ℤ) → All (Within n) ss → grow (pos n) ss ≡ pos n
unfolding grow max_ℤ
grow-Within n [] h = refl
grow-Within n (s ∷ ss) h = ground (arith, grow-Within n ss h.1, +ℤ_parts s (pos 1), h.0)

All-keys-of {ℓ} :
    {V : Type ℓ} (P : ℤ → Type 0) (Q : ℤ × V → Type 0) (d : Dict ℤ V)
    → ((u : ℤ × V) → Q u → P u.0)
    → All Q d
    → All P (keys d)
All-keys-of P Q [] f h = tt
All-keys-of P Q ((k, v) ∷ d) f h = (f (k, v) h.0, All-keys-of P Q d f h.1)

All-weaken {ℓ} :
    {A : Type ℓ} (P Q : A → Type 0) (xs : List A) → ((x : A) → Q x → P x) → All Q xs → All P xs
All-weaken P Q [] f h = tt
All-weaken P Q (x ∷ xs) f h = (f x h.0, All-weaken P Q xs f h.1)

Within-pos : (n i : ℕ) (k : ℤ) → k ≡ pos i → i < n → Within n k
Within-pos n i k e h = subst (Within n) (sym e) (omega arith)

module _ (digest : Value → ℕ) (v : ShelfView) (p : BlockPatch) (w : IsShelfPatch v p) where
  updates-Within : All (Within (capacity v)) (keys p.inventory_updates)
  updates-Within =
      All-keys-of (Within (capacity v)) _ p.inventory_updates
        (λ u q. Within-pos (capacity v) q.0 u.0 q.1 q.2) w.updates

  removals-Within : All (Within (capacity v)) p.inventory_removals
  removals-Within =
      All-weaken (Within (capacity v)) _ p.inventory_removals
        (λ r q. Within-pos (capacity v) q.0 r q.1 q.2) w.removals

  size-kept :
      (e : BlockEntitySnapshot)
      → e.container_size ≡ pos (capacity v)
      → (patch_entity p e).container_size ≡ pos (capacity v)
  unfolding patch_entity
  size-kept e h = ground (
    arith,
    grow-Within (capacity v) (touched_slots p) (
        All-append (Within (capacity v)) (keys p.inventory_updates) p.inventory_removals
          updates-Within removals-Within),
  )

  container-kept :
      (e : BlockEntitySnapshot) → e.is_container ≡ true → (patch_entity p e).is_container ≡ true
  unfolding patch_entity
  container-kept e h = ground arith

  type-kept : (e : BlockEntitySnapshot) → (patch_entity p e).type ≡ e.type
  unfolding patch_entity
  type-kept e = refl

  patch_entity-IsShelf :
      (s t : BlockSnapshot)
      → IsShelf v.kind v.actor s
      → t.block_entity ≡ some (patch_entity p v.actor)
      → t.block_entity_status ≡ "captured"
      → IsShelf v.kind (patch_entity p v.actor) t
  unfolding capacity
  patch_entity-IsShelf s t h entity status = record {
    actor = entity;
    captured = status;
    container = container-kept v.actor h.container;
    typed = type-kept v.actor ∙ h.typed;
    sized = size-kept v.actor h.sized;
    in_range = AllKeys-All (Within (capacity v)) (patch_entity p v.actor).inventory (
        patch_entity-AllKeys (Within (capacity v)) p v.actor
          (All-AllKeys (Within (capacity v)) v.actor.inventory h.in_range) updates-Within);
    distinct = NodupKeys-IsFresh [] _ (patch_entity-NodupKeys p v.actor) (none_occupied _);
  }

  -- The actor of the shelf after the patch.
  abbrev pub new_actor : BlockEntitySnapshot
  new_actor = if touches_entity p then patch_entity p v.actor else v.actor

  entity-patch :
      (s : BlockSnapshot)
      → s.block_entity ≡ some v.actor
      → s.block_entity_status ≡ "captured"
      → ((patch_snapshot p s).block_entity ≡ some new_actor)
        × ((patch_snapshot p s).block_entity_status ≡ "captured")
  unfolding patch_snapshot patch_block
  entity-patch s e c = ground arith

  choice-IsShelf :
      (b : Bool) (s t : BlockSnapshot)
      → IsShelf v.kind v.actor s
      → t.block_entity ≡ some (if b then patch_entity p v.actor else v.actor)
      → t.block_entity_status ≡ "captured"
      → IsShelf v.kind (if b then patch_entity p v.actor else v.actor) t
  choice-IsShelf true s t h entity status = patch_entity-IsShelf s t h entity status
  choice-IsShelf false s t h entity status = record {
    actor = entity;
    captured = status;
    container = h.container;
    typed = h.typed;
    sized = h.sized;
    in_range = h.in_range;
    distinct = h.distinct;
  }

  pub patch_snapshot-IsShelf :
      (s : BlockSnapshot)
      → IsShelf v.kind v.actor s
      → IsShelf v.kind new_actor (refresh_revision digest (patch_snapshot p s))
  unfolding refresh_revision
  patch_snapshot-IsShelf s h =
      let kept = entity-patch s h.actor h.captured in
      choice-IsShelf (touches_entity p) s (refresh_revision digest (patch_snapshot p s)) h kept.0
        kept.1
