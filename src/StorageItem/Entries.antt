-- ===== src/StorageItem/Entries.antt =====
-- The loop of `validate_storage_item` of storage_item.py, against its specification.
use mathlib.Core.Path.{ap₂}
use mathlib.Core.Logic.{inl, inr}
use endstone_blockdata_api.Base.{
  ℕ, ◌+◌, ◌≤◌, ◌≡◌, refl, ap, subst, sym, ◌∙◌, Bool, true, false, not, ◌&&◌, Option, some, List, [],
  ◌∷◌, contains, leb, Result, ok, ok_injective, nat_eq, string_eq, arith,
}
use endstone_blockdata_api.Nbt.{Value, int, ItemNbt, as_dict}
use endstone_blockdata_api.StorageItem.Rules.{StorageItemRules, int_below}
use endstone_blockdata_api.StorageItem.Reading.{identifier, count, slot_of}
use endstone_blockdata_api.StorageItem.Weight.{StorageItemWeightResolver}
use endstone_blockdata_api.StorageItem.Validate.{
  StorageItemValidation, is_ok, goes_on, both, Entry, is_allowed, is_banned, weigh, check_entry,
  finish, check_entries,
}
use endstone_blockdata_api.StorageItem.Spec.{total, all_exact, NewSlots, Each, Describes}
use endstone_blockdata_api.StorageItem.Outcomes.{
  int_below-eq_some, int_below-some, expect-goes_on, goes_on_injective, Refuses, >>=-Refuses,
  expect-Refuses, check-Refuses, goes_on-Refuses, finish-used, finish-exact, check-goes_on,
  both-eq_some, >>=-goes_on, Outcome-cases,
}
use endstone_blockdata_api.StorageItem.Weighing.{Agrees, weigh-Weighs, Weighs-weigh, weigh-Refuses}

-- What the loop needs of the next entry: a new slot, and a weight that the limit leaves room for.
abbrev pub Fits : StorageItemRules → List ℕ → ℕ → Entry → Type 0
Fits rules occupied used e =
    (contains occupied e.slot ≡ false) × (used + e.weight ≤ rules.max_weight)

+_same : (a b c : ℕ) → a + b + c ≡ a + (b + c)
+_same a b c = omega arith

&&_same : (a b c : Bool) → (a && b && c) ≡ (a && (b && c))
&&_same a b c = ground arith

module _ (rules : StorageItemRules) (resolver : Option StorageItemWeightResolver) where
  module _ (validate : ItemNbt → Result StorageItemValidation) (Holds : ItemNbt → ℕ → Bool → Type 0)
      (nested_iff : Agrees validate Holds) where
    check_entry-goes_on :
        (occupied : List ℕ) (used : ℕ) (exact : Bool) (value : Value) (e : Entry)
        → check_entry rules resolver validate occupied used exact value ≡ goes_on e
        → Describes rules resolver Holds value e × Fits rules occupied used e
    unfolding check_entry Describes
    check_entry-goes_on occupied used exact value e h =
        let (entry, is_dict, h) = expect-goes_on _ (as_dict value) _ e h in
        let (place, placed, h) = expect-goes_on _ (slot_of entry) _ e h in
        let (slot, below, h) = expect-goes_on _ (int_below rules.slot_capacity (int place)) _ e h in
        let (free, h) = check-goes_on _ (not (contains occupied slot)) _ e h in
        let (named, has_name, h) = expect-goes_on _ (both (identifier entry) (count entry)) _ e h in
        let (allowed, h) = check-goes_on _ (is_allowed rules named.0) _ e h in
        let (banned, h) = check-goes_on _ (not (is_banned rules named.0)) _ e h in
        let (added, weighed, h) =
          >>=-goes_on _ (weigh rules resolver validate entry named.0 named.1 used exact) e h in
        let (light, h) = check-goes_on _ (leb (used + added.0) rules.max_weight) _ e h in
        let (same_place, in_range) = int_below-eq_some rules.slot_capacity place slot below in
        let (name, number) = both-eq_some (identifier entry) (count entry) named has_name in
        subst (λ e. Describes rules resolver Holds value e × Fits rules occupied used e)
          (goes_on_injective _ e h)
          (
            (
              entry,
              named.0,
              named.1,
              is_dict,
              placed ∙ ap some same_place,
              in_range,
              name,
              number,
              allowed,
              ground (arith, banned),
              weigh-Weighs rules resolver validate Holds nested_iff entry named.0 named.1 used exact
                  added.0 added.1 weighed,
            ),
            (ground (arith, free), ground (arith, light)),
          )

    check_entry-Refuses :
        (occupied : List ℕ) (used : ℕ) (exact : Bool) (value : Value)
        → Refuses (check_entry rules resolver validate occupied used exact value)
    unfolding check_entry is_ok
    check_entry-Refuses occupied used exact value = expect-Refuses _ (as_dict value) _ refl λ entry.
        expect-Refuses _ (slot_of entry) _ refl λ place.
          expect-Refuses _ (int_below rules.slot_capacity (int place)) _ refl λ slot.
            check-Refuses _ (not (contains occupied slot)) _ refl (
              expect-Refuses _ (both (identifier entry) (count entry)) _ refl λ named.
                check-Refuses _ (is_allowed rules named.0) _ refl (
                  check-Refuses _ (not (is_banned rules named.0)) _ refl (
                    >>=-Refuses _ _
                      (weigh-Refuses rules resolver validate Holds nested_iff entry named.0 named.1
                        used exact)
                      λ added.
                        check-Refuses _ (leb (used + added.0) rules.max_weight) _ refl
                          (goes_on-Refuses _))))

    check_entry-Describes :
        (occupied : List ℕ) (used : ℕ) (exact : Bool) (value : Value) (e : Entry)
        → Describes rules resolver Holds value e
        → Fits rules occupied used e
        → check_entry rules resolver validate occupied used exact value ≡ goes_on e
    unfolding check_entry Describes
    check_entry-Describes occupied used exact value e
          (entry, name, n, is_dict, placed, in_range, named, number, allowed, banned, weighs)
          (free, light) =
        ground (
          arith,
          is_dict,
          placed,
          int_below-some rules.slot_capacity e.slot in_range,
          named,
          number,
          allowed,
          banned,
          free,
          light,
          Weighs-weigh rules resolver validate Holds nested_iff entry name n used exact e.weight
              e.exact weighs,
        )

    -- The rest of the loop accepts what its entries allow.
    pub check_entries-ok :
        (values : List Value) (occupied : List ℕ) (used : ℕ) (exact : Bool)
        (v : StorageItemValidation)
        → used ≤ rules.max_weight
        → check_entries rules resolver validate occupied used exact values ≡ ok v
        → is_ok v ≡ true
        → (es : List Entry) × Each (Describes rules resolver Holds) values es
          × NewSlots occupied es
          × (used + total es ≤ rules.max_weight)
          × (v ≡ finish (used + total es) (exact && all_exact es))
    unfolding check_entries
    check_entries-ok [] occupied used exact v room h accepted = (
      [],
      tt,
      tt,
      omega arith,
      sym (ok_injective (finish used exact) v h) ∙ ap₂ finish (omega arith) (ground arith),
    )
    check_entries-ok (value ∷ values) occupied used exact v room h accepted =
        elim (Outcome-cases (check_entry rules resolver validate occupied used exact value)) [
          | inl (e, raised) ↦ ground (arith, raised, h)
          | inr (inl (r, returned)) ↦ ground (
            arith,
            returned,
            h,
            accepted,
            check_entry-Refuses occupied used exact value r returned,
          )
          | inr (inr (e, went)) ↦
              let (described, (free, light)) =
                check_entry-goes_on occupied used exact value e went in
              let (es, each, new, most, same) =
                check_entries-ok values (e.slot ∷ occupied) (used + e.weight) (exact && e.exact) v
                  light (ground (arith, went, h)) accepted in
              (
                e ∷ es,
                (described, each),
                (free, new),
                omega (arith, most),
                same
                    ∙ ap₂ finish (+_same used e.weight (total es))
                        (&&_same exact e.exact (all_exact es)),
              )
        ]

    pub check_entries-Each :
        (values : List Value) (es : List Entry) (occupied : List ℕ) (used : ℕ) (exact : Bool)
        → Each (Describes rules resolver Holds) values es
        → NewSlots occupied es
        → used + total es ≤ rules.max_weight
        → check_entries rules resolver validate occupied used exact values
          ≡ ok (finish (used + total es) (exact && all_exact es))
    unfolding check_entries
    check_entries-Each [] [] occupied used exact each new most =
        ap₂ (λ w e. ok (finish w e)) (omega arith) (ground arith)
    check_entries-Each [] (e ∷ es) occupied used exact each new most = absurd each
    check_entries-Each (value ∷ values) [] occupied used exact each new most = absurd each
    check_entries-Each (value ∷ values) (e ∷ es) occupied used exact each new most =
        let rest =
          check_entries-Each values es (e.slot ∷ occupied) (used + e.weight) (exact && e.exact)
            each.1 new.1 (omega (arith, most)) in
        let went =
          check_entry-Describes occupied used exact value e each.0 (new.0, omega (arith, most)) in
        ground
          (arith, went, rest, +_same used e.weight (total es), &&_same exact e.exact (all_exact es))

    -- The whole loop, which starts with no slot, no weight and an exact weight.
    pub loop-ok :
        (values : List Value) (v : StorageItemValidation)
        → check_entries rules resolver validate [] 0 true values ≡ ok v
        → is_ok v ≡ true
        → (es : List Entry) × Each (Describes rules resolver Holds) values es
          × NewSlots [] es
          × (total es ≤ rules.max_weight)
          × (v.used_weight ≡ total es)
          × (v.exact_weight ≡ all_exact es)
          × (v ≡ finish v.used_weight v.exact_weight)
    loop-ok values v h accepted =
        let (es, each, new, light, same) =
          check_entries-ok values [] 0 true v (omega arith) h accepted in
        let used = ap (λ v. v.used_weight) same ∙ finish-used (0 + total es) (all_exact es) in
        let exact = ap (λ v. v.exact_weight) same ∙ finish-exact (0 + total es) (all_exact es) in
        (
          es,
          each,
          new,
          omega (arith, light),
          omega (arith, used),
          exact,
          same ∙ ap₂ finish (sym used) (sym exact),
        )

    pub loop-Each :
        (values : List Value) (es : List Entry)
        → Each (Describes rules resolver Holds) values es
        → NewSlots [] es
        → total es ≤ rules.max_weight
        → check_entries rules resolver validate [] 0 true values
          ≡ ok (finish (total es) (all_exact es))
    loop-Each values es each new light =
        check_entries-Each values es [] 0 true each new (omega (arith, light))
        ∙ ap (λ w. ok (finish w (all_exact es))) (omega arith)
