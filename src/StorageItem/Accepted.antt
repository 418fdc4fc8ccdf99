-- ===== src/StorageItem/Accepted.antt =====
-- `validate_storage_item` of storage_item.py, level by level, against its specification.
use mathlib.Core.Logic.{inl, inr, ◌↔◌}
use endstone_blockdata_api.Base.{
  ℕ, zero, suc, ◌≤◌, ◌≡◌, ap, ◌∙◌, String, true, false, Option, some, ltb, ok, nat_eq, string_eq,
  arith, Bool-cases, Option-cases,
}
use endstone_blockdata_api.Base.Lists.{length}
use endstone_blockdata_api.Nbt.{Value, ItemNbt, as_dict}
use endstone_blockdata_api.StorageItem.Rules.{StorageItemRules}
use endstone_blockdata_api.StorageItem.Reading.{identifier, count, contents}
use endstone_blockdata_api.StorageItem.Weight.{StorageItemWeightResolver}
use endstone_blockdata_api.StorageItem.Validate.{
  StorageItemValidation, is_ok, both, finish, without_contents, validate_compound, validate_at,
  validate_storage_item,
}
use endstone_blockdata_api.StorageItem.Spec.{Stores}
use endstone_blockdata_api.StorageItem.Outcomes.{finish-ok, both-eq_some}
use endstone_blockdata_api.StorageItem.Weighing.{Agrees}
use endstone_blockdata_api.StorageItem.Entries.{loop-ok, loop-Each}

without_contents-refused :
    (item : ItemNbt) (name : String) → is_ok (without_contents item name) ≡ false
unfolding without_contents is_ok
without_contents-refused item name = ground arith

module _ (rules : StorageItemRules) (resolver : Option StorageItemWeightResolver) where
  -- One level, from the agreement of the level below.
  module _ (levels : ℕ)
      (below : Agrees (validate_at rules resolver levels) (Stores rules resolver levels)) where
    compound-Stores :
        (item : ItemNbt) (v : StorageItemValidation)
        → validate_compound rules resolver (validate_at rules resolver levels) item ≡ ok v
        → is_ok v ≡ true
        → Stores rules resolver (suc levels) item v.used_weight v.exact_weight
          × (v ≡ finish v.used_weight v.exact_weight)
    unfolding validate_compound Stores is_ok
    compound-Stores item v h accepted = elim (Option-cases (both (identifier item) (count item))) [
      | inl unnamed ↦ ground (arith, unnamed, h, accepted)
      | inr (named, has_name) ↦ elim (Option-cases (contents item)) [
        | inl nothing ↦
            ground (arith, has_name, nothing, h, accepted, without_contents-refused item named.0)
        | inr (values, stored) ↦ elim (Bool-cases (ltb rules.slot_capacity (length values))) [
          | inl many ↦ ground (arith, has_name, stored, many, h, accepted)
          | inr few ↦
              let (name, number) = both-eq_some (identifier item) (count item) named has_name in
              let (entries, each, new, light, used, exact, same) =
                loop-ok rules resolver (validate_at rules resolver levels)
                  (Stores rules resolver levels) below values v
                  (ground (arith, has_name, stored, few, h)) accepted in
              let fits : length values ≤ rules.slot_capacity = ground (arith, few) in
              (
                (
                  named.0, named.1, values, entries, name, number, stored, fits, each, new, light,
                  used, exact,
                ),
                same,
              )
        ]
      ]
    ]

    Stores-compound :
        (item : ItemNbt) (v : StorageItemValidation)
        → Stores rules resolver (suc levels) item v.used_weight v.exact_weight
        → v ≡ finish v.used_weight v.exact_weight
        → validate_compound rules resolver (validate_at rules resolver levels) item ≡ ok v
    unfolding validate_compound Stores
    Stores-compound item v
          (name, n, values, entries, named, number, stored, fits, each, new, light, used, exact)
          same =
        let run =
          loop-Each rules resolver (validate_at rules resolver levels)
            (Stores rules resolver levels) below values entries each new light in
        ground (arith, named, number, stored, fits, run, same, used, exact)

  -- Each level agrees with the specification of that level.
  validate_at-Agrees :
      (levels : ℕ) → Agrees (validate_at rules resolver levels) (Stores rules resolver levels)
  unfolding validate_at Stores is_ok
  validate_at-Agrees zero item v = (λ h. ground (arith, h.0, h.1), λ h. absurd h.0)
  validate_at-Agrees (suc levels) item v =
      let below = validate_at-Agrees levels in
      (
        λ h. compound-Stores levels below item v h.0 h.1,
        λ h. (
          Stores-compound levels below item v h.0 h.1,
          ap is_ok h.1 ∙ finish-ok v.used_weight v.exact_weight,
        ),
      )

  -- An item is accepted exactly when it is a compound that stores its entries as the specification
  -- of 9 levels says: each entry in range, named, counted, allowed and of a weight in range, no
  -- slot twice, nested items one level less, and no more than the maximum weight in all. The
  -- result is then the one for an exact or an unknown weight, with the total weight.
  pub validate_storage_item_iff :
      (value : Value) (v : StorageItemValidation)
      → ((validate_storage_item rules resolver value ≡ ok v) × (is_ok v ≡ true)) ↔ (
          (item : ItemNbt) × (as_dict value ≡ some item)
          × (Stores rules resolver 9 item v.used_weight v.exact_weight)
          × (v ≡ finish v.used_weight v.exact_weight))
  unfolding validate_storage_item is_ok
  validate_storage_item_iff value v = (
    λ h. elim (Option-cases (as_dict value)) [
      | inl none_there ↦ ground (arith, none_there, h.0, h.1)
      | inr (item, is_dict) ↦
          let (stores, same) =
            (validate_at-Agrees 9 item v).0 (ground (arith, is_dict, h.0), h.1) in
          (item, is_dict, stores, same)
    ],
    λ (item, is_dict, stores, same).
        let (run, accepted) = (validate_at-Agrees 9 item v).1 (stores, same) in
        (ground (arith, is_dict, run), accepted),
  )
