-- ===== src/StorageItem/Validate.antt =====
-- `validate_storage_item` of storage_item.py.
-- The recursion into nested items goes down a number of levels: the call at `_depth` d has
-- 9 - d of them left, and the call with none is the one beyond `MAX_STORAGE_ITEM_NESTING_DEPTH`.
use endstone_blockdata_api.Base.{
  ℕ, zero, suc, ◌+◌, ◌*◌, String, Bool, true, false, not, ◌&&◌, ◌||◌, Option, none, some, List, [],
  ◌∷◌, ◌==◌, contains, leb, ltb, if◌then◌else◌, Result, ok, err, Error, string_eq, nat_eq,
}
use endstone_blockdata_api.Base.Int.{pos}
use endstone_blockdata_api.Base.Lists.{length}
use endstone_blockdata_api.Nbt.{Value, null, int, ItemNbt, as_dict}
use endstone_blockdata_api.StorageItem.Rules.{StorageItemRules, int_between, int_below}
use endstone_blockdata_api.StorageItem.Reading.{
  identifier, count, tag, has_tag_field, contents, has_contents_field, is_vanilla_bundle_identifier,
  is_shulker_box, is_storage_item_nbt, slot_of,
}
use endstone_blockdata_api.StorageItem.Weight.{StorageItemWeightResolver, embedded_weight}

pub data StorageItemStatus : Type 0 where
  valid weight_unknown not_storage_item invalid_item invalid_contents : StorageItemStatus
  duplicate_slot slot_out_of_range forbidden_item nested_storage_disabled : StorageItemStatus
  overweight nesting_too_deep contents_unavailable : StorageItemStatus

pub record StorageItemValidation : Type 0 where
  pub status : StorageItemStatus
  pub message : String
  pub used_weight : ℕ
  pub exact_weight : Bool

-- `StorageItemValidation.ok`
unfoldable pub is_ok : StorageItemValidation → Bool
is_ok v = elim v.status [ valid ↦ true | weight_unknown ↦ true | _ ↦ false ]

-- A statement of the check raises, returns a validation at once, or goes on with a value.
pub data Outcome {ℓ} (A : Type ℓ) : Type ℓ where
  raises : Error → Outcome A
  returns : StorageItemValidation → Outcome A
  goes_on : A → Outcome A

infixl 5 ◌>>=◌
abbrev pub ◌>>=◌ {ℓ κ} : {A : Type ℓ} {B : Type κ} → Outcome A → (A → Outcome B) → Outcome B
◌>>=◌ (goes_on a) next = next a
◌>>=◌ (returns v) next = returns v
◌>>=◌ (raises e) next = raises e

abbrev pub ◌>>◌ {κ} : {B : Type κ} → Outcome (Unit {0}) → Outcome B → Outcome B
◌>>◌ first next = first >>= λ _. next

abbrev pub refusal : StorageItemStatus → String → ℕ → Bool → StorageItemValidation
refusal status message used exact = record {
  status = status;
  message = message;
  used_weight = used;
  exact_weight = exact;
}

-- `if not test: return refused`
abbrev pub check : Bool → StorageItemValidation → Outcome (Unit {0})
check true refused = goes_on tt
check false refused = returns refused

abbrev pub expect {ℓ} : {A : Type ℓ} → Option A → StorageItemValidation → Outcome A
expect (some a) refused = goes_on a
expect none refused = returns refused

abbrev pub call {ℓ} : {A : Type ℓ} → Result A → Outcome A
call (ok a) = goes_on a
call (err e) = raises e

abbrev pub both {ℓ κ} : {A : Type ℓ} {B : Type κ} → Option A → Option B → Option (A × B)
both (some a) (some b) = some (a, b)
both none b = none
both (some a) none = none

-- What one entry adds: its slot, its weight, and whether the weight is exact.
pub record Entry : Type 0 where
  pub slot : ℕ
  pub weight : ℕ
  pub exact : Bool

unfoldable pub is_empty : List String → Bool
is_empty [] = true
is_empty (s ∷ ss) = false

unfoldable pub is_allowed : StorageItemRules → String → Bool
is_allowed rules name = is_empty rules.allowed_items || contains rules.allowed_items name

unfoldable pub is_banned : StorageItemRules → String → Bool
is_banned rules name =
    contains rules.banned_items name || (rules.reject_shulker_boxes && is_shulker_box name)

-- `weight_resolver(nested_identifier, entry)` where there is a resolver
unfoldable pub resolve : Option StorageItemWeightResolver → String → ItemNbt → Result Value
resolve none name entry = ok null
resolve (some resolver) name entry = resolver name entry

-- The unit weight, and whether it is known.
unfoldable pub unit_weight :
    StorageItemRules → Option StorageItemWeightResolver → String → ItemNbt → Result (Value × Bool)
unit_weight rules resolver name entry = elim (embedded_weight entry rules.max_weight) [
  | some n ↦ ok (int n, true)
  | none ↦ elim (resolve resolver name entry) [
    | err e ↦ err e
    | ok v ↦ elim v [ null ↦ ok (int (pos 1), false) | known ↦ ok (known, true) ]
  ]
]

abbrev pub finish : ℕ → Bool → StorageItemValidation
finish used true = refusal valid "storage item is valid" used true
finish used false =
    refusal weight_unknown
      "storage layout is valid, but exact weight requires item-weight information" used false

abbrev pub refused : StorageItemStatus → String → Result StorageItemValidation
refused status message = ok (refusal status message 0 false)

-- An item without a list of contents.
unfoldable pub without_contents : ItemNbt → String → StorageItemValidation
without_contents item name =
    if has_contents_field item
    then refusal invalid_contents "storage_item_component_content must be a list" 0 false
    else if has_tag_field item && elim (tag item) [ none ↦ true | some inner ↦ false ]
    then refusal invalid_contents "storage item tag must be an NBT compound" 0 false
    else if is_vanilla_bundle_identifier name
    then refusal contents_unavailable "storage item contents are unavailable" 0 false
    else refusal not_storage_item "item has no storage_item_component_content list" 0 false

module _ (rules : StorageItemRules) (resolver : Option StorageItemWeightResolver) where
  -- A nested storage item: its contents and its own weight.
  unfoldable pub weigh_nested :
      (ItemNbt → Result StorageItemValidation) → ItemNbt → ℕ → ℕ → Bool → Outcome (ℕ × Bool)
  weigh_nested validate entry n used exact = do
    check rules.allow_nested_storage_items
        (refusal nested_storage_disabled "nested storage items are disabled" used exact)
    check (n == 1) (refusal invalid_item "nested storage items must have a count of one" used exact)
    nested ← call (validate entry)
    check (is_ok nested) nested
    goes_on (nested.used_weight + rules.nested_storage_item_weight, nested.exact_weight)

  -- Any other item: its unit weight for each of its count.
  unfoldable pub weigh_plain : ItemNbt → String → ℕ → ℕ → Bool → Outcome (ℕ × Bool)
  weigh_plain entry name n used exact = do
    (value, known) ← call (unit_weight rules resolver name entry)
    unit ← expect (int_between 1 rules.max_weight value) (
        refusal invalid_item "item weight resolver returned an invalid value" used (exact && known))
    goes_on (unit * n, known)

  unfoldable pub weigh :
      (ItemNbt → Result StorageItemValidation)
      → ItemNbt
      → String
      → ℕ
      → ℕ
      → Bool
      → Outcome (ℕ × Bool)
  weigh validate entry name n used exact =
      if is_storage_item_nbt entry
      then weigh_nested validate entry n used exact
      else weigh_plain entry name n used exact

  -- The body of the loop over the entries.
  unfoldable pub check_entry :
      (ItemNbt → Result StorageItemValidation) → List ℕ → ℕ → Bool → Value → Outcome Entry
  check_entry validate occupied used exact value = do
    entry ←
        expect (as_dict value)
          (refusal invalid_contents "storage item entries must be item compounds" used exact)
    place ←
        expect (slot_of entry)
          (refusal invalid_contents "storage item entry is missing a valid Slot" used exact)
    slot ←
        expect (int_below rules.slot_capacity (int place))
          (refusal slot_out_of_range "storage item slot is outside the supported range" used exact)
    check (not (contains occupied slot))
        (refusal duplicate_slot "storage item contains a duplicate slot" used exact)
    (name, n) ←
        expect (both (identifier entry) (count entry))
          (refusal invalid_item "storage item contains an invalid item entry" used exact)
    check (is_allowed rules name) (
        refusal forbidden_item "item is not included in the storage item's allowed-items list" used
          exact)
    check (not (is_banned rules name))
        (refusal forbidden_item "item is banned from this storage item" used exact)
    (added, known) ← weigh validate entry name n used exact
    check (leb (used + added) rules.max_weight)
        (refusal overweight "storage item exceeds its weight limit" (used + added) (exact && known))
    goes_on (record { slot = slot; weight = added; exact = known })

  -- The loop, with the slots that are occupied, the weight so far and whether it is exact.
  unfoldable pub check_entries :
      (ItemNbt → Result StorageItemValidation)
      → List ℕ
      → ℕ
      → Bool
      → List Value
      → Result StorageItemValidation
  check_entries validate occupied used exact [] = ok (finish used exact)
  check_entries validate occupied used exact (value ∷ values) =
      elim (check_entry validate occupied used exact value) [
        | raises e ↦ err e
        | returns refused ↦ ok refused
        | goes_on entry ↦
            check_entries validate (entry.slot ∷ occupied) (used + entry.weight)
              (exact && entry.exact) values
      ]

  -- The part of the call after the test of the depth, on an item compound.
  unfoldable pub validate_compound :
      (ItemNbt → Result StorageItemValidation) → ItemNbt → Result StorageItemValidation
  validate_compound validate item = elim (both (identifier item) (count item)) [
    | none ↦ refused invalid_item "storage item must contain a valid item identifier and count"
    | some (name, n) ↦ elim (contents item) [
      | none ↦ ok (without_contents item name)
      | some values ↦
          if ltb rules.slot_capacity (length values)
          then refused invalid_contents "storage item has more entries than its slot capacity"
          else check_entries validate [] 0 true values
    ]
  ]

  unfoldable pub validate_at : ℕ → ItemNbt → Result StorageItemValidation
  validate_at zero item =
      refused nesting_too_deep "storage item nesting exceeds the supported depth"
  validate_at (suc levels) item = validate_compound (validate_at levels) item

  abbrev pub max_storage_item_nesting_depth : ℕ
  max_storage_item_nesting_depth = 8

  -- `validate_storage_item(item, rules, weight_resolver)`
  unfoldable pub validate_storage_item : Value → Result StorageItemValidation
  validate_storage_item value = elim (as_dict value) [
    | none ↦ refused invalid_item "storage item must be an item compound"
    | some item ↦ validate_at (suc max_storage_item_nesting_depth) item
  ]
