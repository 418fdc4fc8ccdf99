-- ===== src/Container/Laws.antt =====
-- A container view finds the item that the slot holds, and its patches write it.
use mathlib.Core.Option
use mathlib.Core.Option.{or_else}
use endstone_blockdata_api.Base.{◌≡◌, List, [], ◌∷◌, map, arith}
use endstone_blockdata_api.Base.Int.{ℤ, int_eq}
use endstone_blockdata_api.Base.Dict
use endstone_blockdata_api.Base.Dict.{Dict, NodupKeys}
use endstone_blockdata_api.Model.{InventorySlotSnapshot}
use endstone_blockdata_api.Memory.{by_slot, slots_of}
use endstone_blockdata_api.Memory.Inventory.{item_at}
use endstone_blockdata_api.Container.{first_item}

pub first_item-lookup :
    (inventory : List InventorySlotSnapshot) (j : ℤ)
    → first_item inventory j ≡ Option.map (λ x. x.item) (Dict.lookup j (map by_slot inventory))
unfolding first_item
first_item-lookup [] j = rw Dict.lookup-nil
first_item-lookup (x ∷ xs) j =
    ground (arith, first_item-lookup xs j, Dict.lookup-cons j x.slot x (map by_slot xs))

-- Where no slot is there twice, the first item of a slot is the one that a dict by slots shows.
pub first_item-eq-item_at :
    (inventory : List InventorySlotSnapshot) (j : ℤ)
    → NodupKeys (map by_slot inventory)
    → first_item inventory j ≡ item_at inventory j
unfolding item_at slots_of or_else
first_item-eq-item_at inventory j u = ground (
  arith,
  first_item-lookup inventory j,
  Dict.lookup-update j [] (map by_slot inventory) u,
  Dict.lookup-nil {V = InventorySlotSnapshot} j,
)
