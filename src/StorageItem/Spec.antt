-- ===== src/StorageItem/Spec.antt =====
-- What `validate_storage_item` of storage_item.py promises of an item that it accepts.
use mathlib.Core.Logic.{◌⊎◌}
use endstone_blockdata_api.Base.{
  ℕ, zero, suc, ◌+◌, ◌*◌, ◌≤◌, ◌<◌, ◌≡◌, String, Bool, true, false, ◌&&◌, Option, some, List, [],
  ◌∷◌, contains, ok, nat_eq,
}
use endstone_blockdata_api.Base.Int.{pos}
use endstone_blockdata_api.Base.Lists.{length}
use endstone_blockdata_api.Nbt.{Value, int, ItemNbt, as_dict}
use endstone_blockdata_api.StorageItem.Rules.{StorageItemRules}
use endstone_blockdata_api.StorageItem.Reading.{
  identifier, count, contents, is_storage_item_nbt, slot_of,
}
use endstone_blockdata_api.StorageItem.Weight.{StorageItemWeightResolver}
use endstone_blockdata_api.StorageItem.Validate.{Entry, is_allowed, is_banned, unit_weight}

abbrev pub total : List Entry → ℕ
total [] = 0
total (e ∷ es) = e.weight + total es

abbrev pub all_exact : List Entry → Bool
all_exact [] = true
all_exact (e ∷ es) = e.exact && all_exact es

-- No entry is in a slot of `occupied` or in the slot of an earlier entry.
abbrev pub NewSlots : List ℕ → List Entry → Type 0
NewSlots occupied [] = Unit
NewSlots occupied (e ∷ es) = (contains occupied e.slot ≡ false) × NewSlots (e.slot ∷ occupied) es

-- The values and the entries that they stand for, one for one.
abbrev pub Each : (Value → Entry → Type 0) → List Value → List Entry → Type 0
Each Describes [] [] = Unit
Each Describes (v ∷ vs) (e ∷ es) = Describes v e × Each Describes vs es
Each Describes [] (e ∷ es) = ⊥
Each Describes (v ∷ vs) [] = ⊥

module _ (rules : StorageItemRules) (resolver : Option StorageItemWeightResolver) where
  -- A nested storage item weighs its contents and its own weight, and is alone in its slot;
  -- every other item weighs its unit weight, which is in range, for each of its count.
  unfoldable pub Weighs : (ItemNbt → ℕ → Bool → Type 0) → ItemNbt → String → ℕ → ℕ → Bool → Type 0
  Weighs Stores entry name n weight exact =
      ((is_storage_item_nbt entry ≡ true)
        × (rules.allow_nested_storage_items ≡ true)
        × (n ≡ 1)
        × (inner : ℕ) × (Stores entry inner exact)
        × (weight ≡ inner + rules.nested_storage_item_weight))
      ⊎ ((is_storage_item_nbt entry ≡ false)
          × (unit : ℕ) × (unit_weight rules resolver name entry ≡ ok (int (pos unit), exact))
          × (1 ≤ unit)
          × (unit ≤ rules.max_weight)
          × (weight ≡ unit * n))

  unfoldable pub Describes : (ItemNbt → ℕ → Bool → Type 0) → Value → Entry → Type 0
  Describes Stores value e =
      (entry : ItemNbt) × (name : String) × (n : ℕ) × (as_dict value ≡ some entry)
      × (slot_of entry ≡ some (pos e.slot))
      × (e.slot < rules.slot_capacity)
      × (identifier entry ≡ some name)
      × (count entry ≡ some n)
      × (is_allowed rules name ≡ true)
      × (is_banned rules name ≡ false)
      × Weighs Stores entry name n e.weight e.exact

  -- The item stores entries in distinct slots, which weigh no more than the limit in all.
  -- `levels` bounds how deep storage items are nested.
  unfoldable pub Stores : ℕ → ItemNbt → ℕ → Bool → Type 0
  Stores zero item weight exact = ⊥
  Stores (suc levels) item weight exact =
      (name : String) × (n : ℕ) × (values : List Value) × (entries : List Entry) × (identifier item
        ≡ some name)
      × (count item ≡ some n)
      × (contents item ≡ some values)
      × (length values ≤ rules.slot_capacity)
      × (Each (Describes (Stores levels)) values entries)
      × (NewSlots [] entries)
      × (total entries ≤ rules.max_weight)
      × (weight ≡ total entries)
      × (exact ≡ all_exact entries)
