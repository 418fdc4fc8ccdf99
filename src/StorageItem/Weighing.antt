-- ===== src/StorageItem/Weighing.antt =====
-- The weight of an entry in `validate_storage_item` of storage_item.py, against its specification.
use mathlib.Core.Path.{ap₂}
use mathlib.Core.Logic.{inl, inr, ◌↔◌}
use endstone_blockdata_api.Base.{
  ℕ, ◌+◌, ◌*◌, ◌≤◌, ◌≡◌, refl, subst, sym, ◌∙◌, String, Bool, true, false, Option, ◌==◌, Result, ok,
  nat_eq, string_eq, arith, Bool-cases,
}
use endstone_blockdata_api.Base.Int.{pos}
use endstone_blockdata_api.Nbt.{int, ItemNbt}
use endstone_blockdata_api.StorageItem.Rules.{StorageItemRules, int_between}
use endstone_blockdata_api.StorageItem.Reading.{is_storage_item_nbt}
use endstone_blockdata_api.StorageItem.Weight.{StorageItemWeightResolver}
use endstone_blockdata_api.StorageItem.Validate.{
  StorageItemValidation, is_ok, goes_on, unit_weight, weigh_nested, weigh_plain, weigh, finish,
}
use endstone_blockdata_api.StorageItem.Spec.{Weighs}
use endstone_blockdata_api.StorageItem.Outcomes.{
  int_between-eq_some, int_between-some, expect-goes_on, call-goes_on, Refuses, goes_on_parts,
  finish-used, finish-exact, check-goes_on,
}

-- A call accepts what the predicate describes, with the weight and the exactness.
abbrev pub Agrees :
    (ItemNbt → Result StorageItemValidation) → (ItemNbt → ℕ → Bool → Type 0) → Type 0
Agrees validate Holds =
    (item : ItemNbt) (v : StorageItemValidation)
    → ((validate item ≡ ok v) × (is_ok v ≡ true))
      ↔ ((Holds item v.used_weight v.exact_weight) × (v ≡ finish v.used_weight v.exact_weight))

module _ (rules : StorageItemRules) (resolver : Option StorageItemWeightResolver) where
  module _ (validate : ItemNbt → Result StorageItemValidation) (Holds : ItemNbt → ℕ → Bool → Type 0)
      (nested_iff : Agrees validate Holds) where
    pub weigh_nested-goes_on :
        (entry : ItemNbt) (n used : ℕ) (exact : Bool) (w : ℕ) (e : Bool)
        → weigh_nested rules resolver validate entry n used exact ≡ goes_on (w, e)
        → (rules.allow_nested_storage_items ≡ true)
          × (n ≡ 1)
          × (inner : ℕ) × (Holds entry inner e)
          × (w ≡ inner + rules.nested_storage_item_weight)
    unfolding weigh_nested
    weigh_nested-goes_on entry n used exact w e h =
        let (allow, h) = check-goes_on _ rules.allow_nested_storage_items _ (w, e) h in
        let (one, h) = check-goes_on _ (n == 1) _ (w, e) h in
        let (v, called, h) = call-goes_on _ (validate entry) (w, e) h in
        let (accepted, h) = check-goes_on _ (is_ok v) _ (w, e) h in
        let (heavy, known) = goes_on_parts _ (w, e) h in
        (
          allow,
          ground (arith, one),
          v.used_weight,
          subst (Holds entry v.used_weight) known ((nested_iff entry v).0 (called, accepted)).0,
          sym heavy,
        )

    pub weigh_plain-goes_on :
        (entry : ItemNbt) (name : String) (n used : ℕ) (exact : Bool) (w : ℕ) (e : Bool)
        → weigh_plain rules resolver entry name n used exact ≡ goes_on (w, e)
        → (unit : ℕ) × (unit_weight rules resolver name entry ≡ ok (int (pos unit), e))
          × (1 ≤ unit)
          × (unit ≤ rules.max_weight)
          × (w ≡ unit * n)
    unfolding weigh_plain
    weigh_plain-goes_on entry name n used exact w e h =
        let (value, weighed, h) = call-goes_on _ (unit_weight rules resolver name entry) (w, e) h in
        let (unit, between, h) =
          expect-goes_on _ (int_between 1 rules.max_weight value.0) _ (w, e) h in
        let (heavy, exactly) = goes_on_parts _ (w, e) h in
        let (number, below, above) = int_between-eq_some 1 rules.max_weight value.0 unit between in
        (unit, weighed ∙ ap₂ (λ v b. ok (v, b)) number exactly, below, above, sym heavy)

    pub weigh-Weighs :
        (entry : ItemNbt) (name : String) (n used : ℕ) (exact : Bool) (w : ℕ) (e : Bool)
        → weigh rules resolver validate entry name n used exact ≡ goes_on (w, e)
        → Weighs rules resolver Holds entry name n w e
    unfolding weigh Weighs
    weigh-Weighs entry name n used exact w e h = elim (Bool-cases (is_storage_item_nbt entry)) [
      | inl storage ↦
          let (allow, one, inner, holds, heavy) =
            weigh_nested-goes_on entry n used exact w e (ground (arith, storage, h)) in
          inl (storage, allow, one, inner, holds, heavy)
      | inr other ↦
          let (unit, known, below, above, heavy) =
            weigh_plain-goes_on entry name n used exact w e (ground (arith, other, h)) in
          inr (other, unit, known, below, above, heavy)
    ]

    pub accepted_call :
        (item : ItemNbt) (w : ℕ) (e : Bool)
        → Holds item w e
        → (validate item ≡ ok (finish w e)) × (is_ok (finish w e) ≡ true)
    accepted_call item w true holds = (nested_iff item (finish w true)).1 (holds, refl)
    accepted_call item w false holds = (nested_iff item (finish w false)).1 (holds, refl)

    pub Weighs-weigh :
        (entry : ItemNbt) (name : String) (n used : ℕ) (exact : Bool) (w : ℕ) (e : Bool)
        → Weighs rules resolver Holds entry name n w e
        → weigh rules resolver validate entry name n used exact ≡ goes_on (w, e)
    unfolding weigh weigh_nested weigh_plain Weighs
    Weighs-weigh entry name n used exact w e (inl (storage, allow, one, inner, holds, heavy)) =
        let (called, accepted) = accepted_call entry inner e holds in
        ground (
          arith,
          storage,
          allow,
          one,
          called,
          accepted,
          heavy,
          finish-used inner e,
          finish-exact inner e,
        )
    Weighs-weigh entry name n used exact w e (inr (other, unit, known, below, above, heavy)) =
        ground (arith, other, known, int_between-some 1 rules.max_weight unit below above, heavy)

    pub weigh-Refuses :
        (entry : ItemNbt) (name : String) (n used : ℕ) (exact : Bool)
        → Refuses (weigh rules resolver validate entry name n used exact)
    unfolding weigh weigh_nested weigh_plain is_ok
    weigh-Refuses entry name n used exact r h = ground (arith, h)
