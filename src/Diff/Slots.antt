-- ===== src/Diff/Slots.antt =====
-- What a diff reports of each slot.
use endstone_blockdata_api.Base.{
  ◌≡◌, refl, ap, ◌∙◌, Option, none, some, List, [], ◌∷◌, ◌++◌, map, ◌==◌, arith, if◌then◌else◌, ok,
  err, value_error, string_eq, nat_eq, inl, inr, then_return, Bool-cases,
}
use mathlib.Core.Path.{ap₂}
use mathlib.Core.List.{append-nil}
use endstone_blockdata_api.Base.Int.{ℤ, int_eq}
use endstone_blockdata_api.Base.Dict
use endstone_blockdata_api.Base.Dict.{Dict, NodupKeys}
use endstone_blockdata_api.Nbt.{ItemNbt}
use endstone_blockdata_api.Model.{
  location_eq, added, removed, changed, BlockEntitySnapshot, BlockSnapshot, InventoryChange,
}
use endstone_blockdata_api.Diff.{mapping_eq, slot_item, items_of, left_changes, right_changes, diff}

-- The changes that concern one slot, in their order.
abbrev pub changes_at : ℤ → List InventoryChange → List InventoryChange
changes_at j [] = []
changes_at j (c ∷ cs) = let rest = changes_at j cs in if j == c.slot then c ∷ rest else rest

-- What should be reported of a slot that holds `before` and then `after`.
abbrev pub expected_at : ℤ → Option ItemNbt → Option ItemNbt → List InventoryChange
expected_at j none none = []
expected_at j (some a) none =
    record { slot = j; kind = removed; before = some a; after = none } ∷ []
expected_at j none (some b) = record { slot = j; kind = added; before = none; after = some b } ∷ []
expected_at j (some a) (some b) =
    if mapping_eq a b
    then []
    else record { slot = j; kind = changed; before = some a; after = some b } ∷ []

changes_at-append :
    (j : ℤ) (cs ds : List InventoryChange)
    → changes_at j (cs ++ ds) ≡ changes_at j cs ++ changes_at j ds
changes_at-append j [] ds = refl
changes_at-append j (c ∷ cs) ds = ground (arith, changes_at-append j cs ds)

-- The part of the expectation that each loop contributes.
abbrev left_at : ℤ → Option ItemNbt → Option ItemNbt → List InventoryChange
left_at j none after = []
left_at j (some a) after = expected_at j (some a) after

abbrev right_at : ℤ → Option ItemNbt → Option ItemNbt → List InventoryChange
right_at j none after = expected_at j none after
right_at j (some a) after = []

changes_at-left_changes :
    (j : ℤ) (left right : Dict ℤ ItemNbt)
    → NodupKeys left
    → changes_at j (left_changes left right) ≡ left_at j (Dict.lookup j left) (Dict.lookup j right)
unfolding left_changes
changes_at-left_changes j [] right u = rw Dict.lookup-nil
changes_at-left_changes j ((k, item) ∷ left) right u =
    ground (arith, changes_at-left_changes j left right u.1, Dict.lookup-cons j k item left)

changes_at-right_changes :
    (j : ℤ) (left right : Dict ℤ ItemNbt)
    → NodupKeys right
    → changes_at j (right_changes left right)
      ≡ right_at j (Dict.lookup j left) (Dict.lookup j right)
unfolding right_changes
changes_at-right_changes j left [] u = ground (arith, Dict.lookup-nil {V = ItemNbt} j)
changes_at-right_changes j left ((k, item) ∷ right) u =
    ground (arith, changes_at-right_changes j left right u.1, Dict.lookup-cons j k item right)

pub items_of-NodupKeys : (e : Option BlockEntitySnapshot) → NodupKeys (items_of e)
unfolding items_of
items_of-NodupKeys none = tt
items_of-NodupKeys (some e) = Dict.update-NodupKeys [] (map slot_item e.inventory) tt

expected-parts :
    (j : ℤ) (before after : Option ItemNbt)
    → left_at j before after ++ right_at j before after ≡ expected_at j before after
expected-parts j none after = refl
expected-parts j (some a) after = append-nil _

-- A diff fails exactly when the locations differ. Otherwise it has, for every slot, the one change
-- that the slot's items before and after call for, and none where they are equal or both absent.
pub diff-changes_at :
    (before after : BlockSnapshot) (j : ℤ)
    → then_return (λ d. changes_at j d.inventory_changes) (diff before after) ≡ (
        if before.location == after.location
        then ok (
            expected_at j
              (Dict.lookup j (items_of before.block_entity))
              (Dict.lookup j (items_of after.block_entity)))
        else err (value_error "snapshot locations differ"))
unfolding diff
diff-changes_at before after j =
    let left = items_of before.block_entity in
    let right = items_of after.block_entity in
    let parts : changes_at j (left_changes left right ++ right_changes left right)
        ≡ expected_at j (Dict.lookup j left) (Dict.lookup j right) =
      changes_at-append j (left_changes left right) (right_changes left right)
      ∙ ap₂ ◌++◌ (changes_at-left_changes j left right (items_of-NodupKeys before.block_entity))
          (changes_at-right_changes j left right (items_of-NodupKeys after.block_entity))
      ∙ expected-parts j (Dict.lookup j left) (Dict.lookup j right) in
    elim (Bool-cases (before.location == after.location)) [
      | inl same ↦ rw same (ap ok parts)
      | inr differ ↦ rw differ
    ]
