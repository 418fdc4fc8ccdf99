-- ===== src/Memory/Invariant.antt =====
-- What every block that the adapter holds satisfies, whatever patches it was sent.
use endstone_blockdata_api.Base.{
  ◌≡◌, true, List, [], ◌∷◌, ◌++◌, map, arith, Bool-cases, inl, inr, ◌⊎◌,
}
use endstone_blockdata_api.Base.Int.{
  ℤ, pos, ◌+ℤ◌, ◌<ℤ◌, ◌≤ℤ◌, max_ℤ, int_eq, int_laws, le-max_left, le-max_right,
}
use endstone_blockdata_api.Base.Lists.{All}
use endstone_blockdata_api.Base.Dict
use endstone_blockdata_api.Base.Dict.{Dict, NodupKeys, AllKeys, keys, values}
use endstone_blockdata_api.Model.{location_eq, BlockEntitySnapshot, BlockPatch, is_empty}
use endstone_blockdata_api.Memory.{
  by_slot, slots_of, patch_slots, touched_slots, touches_inventory, grow, patch_entity,
}
use endstone_blockdata_api.Memory.Inventory.{patch_entity-AllKeys, patch_entity-NodupKeys}

abbrev Below : ℤ → ℤ → Type 0
Below size slot = slot <ℤ size

-- The slots are distinct, each is below the container's size, and only a container has any.
pub record IsWellFormed (e : BlockEntitySnapshot) : Type 0 where
  pub distinct : NodupKeys (map by_slot e.inventory)
  pub in_bounds : AllKeys (Below e.container_size) (map by_slot e.inventory)
  pub container : (is_empty e.inventory ≡ true) ⊎ (e.is_container ≡ true)

le-grow : (size : ℤ) (ss : List ℤ) → size ≤ℤ grow size ss
unfolding grow
le-grow size [] = omega arith
le-grow size (s ∷ ss) =
    omega (arith, le-grow (max_ℤ size (s +ℤ pos 1)) ss, le-max_left size (s +ℤ pos 1))

below-grow : (size : ℤ) (ss : List ℤ) → All (λ s. s <ℤ grow size ss) ss
unfolding grow
below-grow size [] = tt
below-grow size (s ∷ ss) = (
  omega (int_laws, le-grow (max_ℤ size (s +ℤ pos 1)) ss, le-max_right size (s +ℤ pos 1)),
  below-grow (max_ℤ size (s +ℤ pos 1)) ss,
)

All-keys {ℓ} : {V : Type ℓ} (P : ℤ → Type 0) (d : Dict ℤ V) → All P (keys d) → AllKeys P d
All-keys P [] h = tt
All-keys P ((k, v) ∷ d) h = (h.0, All-keys P d h.1)

All-append_left {ℓ κ} : {A : Type ℓ} (P : A → Type κ) (xs ys : List A) → All P (xs ++ ys) → All P xs
All-append_left P [] ys h = tt
All-append_left P (x ∷ xs) ys h = (h.0, All-append_left P xs ys h.1)

Below-mono {ℓ} :
    {V : Type ℓ} (a b : ℤ) (d : Dict ℤ V) → a ≤ℤ b → AllKeys (Below a) d → AllKeys (Below b) d
Below-mono a b [] le h = tt
Below-mono a b ((k, v) ∷ d) le h = (omega arith, Below-mono a b d le h.1)

module _ (p : BlockPatch) (e : BlockEntitySnapshot) (w : IsWellFormed e) where
  -- The container's size after the patch.
  abbrev new_size : ℤ
  new_size = (patch_entity p e).container_size

  le-new_size : e.container_size ≤ℤ new_size
  unfolding patch_entity
  le-new_size = elim (Bool-cases (touches_inventory p)) [
    | inl t ↦ rw t (le-grow e.container_size (touched_slots p))
    | inr n ↦ rw n (omega arith)
  ]

  updates-Below : All (Below new_size) (keys p.inventory_updates)
  unfolding patch_entity
  updates-Below = elim (Bool-cases (touches_inventory p)) [
    | inl t ↦ rw t (
        All-append_left (Below (grow e.container_size (touched_slots p))) (keys p.inventory_updates)
          p.inventory_removals (below-grow e.container_size (touched_slots p)))
    | inr n ↦ ground arith
  ]

  patch_inventory-container :
      (is_empty (patch_entity p e).inventory ≡ true) ⊎ ((patch_entity p e).is_container ≡ true)
  unfolding patch_entity patch_slots slots_of Dict.update Dict.erase_all
  patch_inventory-container = ground (arith, w.container)

  pub patch_entity-IsWellFormed : IsWellFormed (patch_entity p e)
  patch_entity-IsWellFormed = record {
    distinct = patch_entity-NodupKeys p e;
    in_bounds =
        patch_entity-AllKeys (Below new_size) p e
          (Below-mono e.container_size new_size _ le-new_size w.in_bounds) updates-Below;
    container = patch_inventory-container;
  }
