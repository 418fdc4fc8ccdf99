-- ===== src/Diff/Same.antt =====
-- A diff of a snapshot with itself, and the diff that a patch gives rise to.
use endstone_blockdata_api.Base.{
  ◌≡◌, refl, true, Option, none, some, List, [], ◌∷◌, ◌++◌, map, arith, ok, string_eq, nat_eq,
  then_return,
}
use endstone_blockdata_api.Base.Int.{ℤ, int_eq}
use endstone_blockdata_api.Base.Lists.{All}
use endstone_blockdata_api.Base.Dict
use endstone_blockdata_api.Base.Dict.{Dict, NodupKeys}
use endstone_blockdata_api.Nbt.{ItemNbt, compound}
use endstone_blockdata_api.Nbt.Equal.{IsProper, value_eq_refl}
use endstone_blockdata_api.Model.{
  location_eq, InventorySlotSnapshot, BlockEntitySnapshot, BlockSnapshot, empty,
}
use endstone_blockdata_api.Diff.{
  mapping_eq, optional_eq, slot_item, items_of, left_changes, right_changes, nbt_of, diff,
}
use endstone_blockdata_api.Diff.Slots.{items_of-NodupKeys}

-- Python's dicts hold no key twice.
abbrev pub IsProperMapping : ItemNbt → Type 0
IsProperMapping d = IsProper (compound d)

abbrev AllProperItems : Dict ℤ ItemNbt → Type 0
AllProperItems [] = Unit
AllProperItems ((k, d) ∷ m) = IsProperMapping d × AllProperItems m

abbrev EntityIsProper : Option BlockEntitySnapshot → Type 0
EntityIsProper none = Unit
EntityIsProper (some e) = IsProperMapping e.nbt × All (λ s. IsProperMapping s.item) e.inventory

pub record SnapshotIsProper (s : BlockSnapshot) : Type 0 where
  pub states : IsProperMapping s.states
  pub entity : EntityIsProper s.block_entity

mapping_eq_refl : (d : ItemNbt) → IsProperMapping d → mapping_eq d d ≡ true
unfolding mapping_eq
mapping_eq_refl d p = value_eq_refl (compound d) p

-- Every entry of the first dict is in the second.
record Covers (m d : Dict ℤ ItemNbt) : Type 0 where
  at : (k : ℤ) (v : ItemNbt) → Dict.lookup k m ≡ some v → Dict.lookup k d ≡ some v

Covers-head :
    {k : ℤ} {v : ItemNbt} {m d : Dict ℤ ItemNbt} → Covers ((k, v) ∷ m) d → Dict.lookup k d ≡ some v
Covers-head {k} {v} {m} h = h.at k v (ground (arith, Dict.lookup-cons k k v m))

Covers-tail :
    {k : ℤ} {v : ItemNbt} {m d : Dict ℤ ItemNbt}
    → Dict.lookup k m ≡ none
    → Covers ((k, v) ∷ m) d
    → Covers m d
Covers-tail {k} {v} {m} fresh h = record {
  at = λ j w p. h.at j w (ground (arith, Dict.lookup-cons j k v m));
}

left_changes-covered :
    (m d : Dict ℤ ItemNbt) → NodupKeys m → AllProperItems m → Covers m d → left_changes m d ≡ []
unfolding left_changes
left_changes-covered [] d u p h = refl
left_changes-covered ((k, v) ∷ m) d u p h = ground (
  arith,
  Covers-head h,
  mapping_eq_refl v p.0,
  left_changes-covered m d u.1 p.1 (Covers-tail u.0 h),
)

right_changes-covered : (d m : Dict ℤ ItemNbt) → NodupKeys m → Covers m d → right_changes d m ≡ []
unfolding right_changes
right_changes-covered d [] u h = refl
right_changes-covered d ((k, v) ∷ m) u h =
    ground (arith, Covers-head h, right_changes-covered d m u.1 (Covers-tail u.0 h))

insert-AllProperItems :
    (k : ℤ) (v : ItemNbt) (m : Dict ℤ ItemNbt)
    → IsProperMapping v
    → AllProperItems m
    → AllProperItems (Dict.insert k v m)
unfolding Dict.insert
insert-AllProperItems k v [] p h = (p, tt)
insert-AllProperItems k v ((j, w) ∷ m) p h = ground (arith, insert-AllProperItems k v m p h.1)

update-AllProperItems :
    (m : Dict ℤ ItemNbt) (inventory : List InventorySlotSnapshot)
    → AllProperItems m
    → All (λ s. IsProperMapping s.item) inventory
    → AllProperItems (Dict.update m (map slot_item inventory))
unfolding Dict.update
update-AllProperItems m [] h p = h
update-AllProperItems m (s ∷ ss) h p =
    update-AllProperItems (Dict.insert s.slot s.item m) ss
      (insert-AllProperItems s.slot s.item m p.0 h) p.1

items_of-AllProperItems :
    (e : Option BlockEntitySnapshot) → EntityIsProper e → AllProperItems (items_of e)
unfolding items_of
items_of-AllProperItems none p = tt
items_of-AllProperItems (some e) p = update-AllProperItems [] e.inventory tt p.1

no_changes :
    (e : Option BlockEntitySnapshot)
    → EntityIsProper e
    → left_changes (items_of e) (items_of e) ++ right_changes (items_of e) (items_of e) ≡ []
no_changes e p =
    let d = items_of e in
    let u = items_of-NodupKeys e in
    let c : Covers d d = record { at = λ k v h. h } in
    rw (left_changes-covered d d u (items_of-AllProperItems e p) c) (right_changes-covered d d u c)

optional_eq_refl :
    (e : Option BlockEntitySnapshot) → EntityIsProper e → optional_eq (nbt_of e) (nbt_of e) ≡ true
unfolding optional_eq
optional_eq_refl none p = refl
optional_eq_refl (some e) p = mapping_eq_refl e.nbt p.0

-- The diff of a snapshot with itself succeeds and is empty.
pub diff_same : (s : BlockSnapshot) → SnapshotIsProper s → then_return empty (diff s s) ≡ ok true
unfolding diff empty
diff_same s p = ground (
  arith,
  no_changes s.block_entity p.entity,
  optional_eq_refl s.block_entity p.entity,
  mapping_eq_refl s.states p.states,
)
