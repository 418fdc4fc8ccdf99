-- ===== src/StorageItem/Replace.antt =====
-- `replace_contents` of storage_item.py: afterwards the view holds the given entries alone.
use mathlib.Core.Option
use endstone_blockdata_api.Base.{
  ℕ, ◌<◌, ◌≡◌, refl, ap, sym, ◌∙◌, subst, Bool, true, false, Option, none, some, List, [], ◌∷◌,
  ◌==◌, contains, if◌then◌else◌, Result, ok, ok_injective, >>=-eq-ok, arith, Bool-cases, nat_eq,
  inl, inr,
}
use endstone_blockdata_api.Base.Int.{ℤ, pos, pos_injective, int_eq}
use endstone_blockdata_api.Base.Sort.{sort}
use endstone_blockdata_api.Nbt.{Value, int, ItemNbt, as_dict}
use endstone_blockdata_api.StorageItem.Rules.{StorageItemRules, int_below}
use endstone_blockdata_api.StorageItem.View.{
  StorageItemView, StorageItemEntry, put_contents, mutable_contents, entries_of, check_slot,
  get_item, set_item, set_items, find, open_compound, replace_contents,
}
use endstone_blockdata_api.StorageItem.Stored.{
  stored_item, get_item-edited, Reads-entries_of, contents-put_contents,
}
use endstone_blockdata_api.StorageItem.Edits.{set_item-get_item, set_item-readable}

-- The item that the entries give to a slot.
unfoldable pub given : ℤ → List (ℤ × Value) → Option ItemNbt
given j [] = none
given j ((slot, value) ∷ entries) =
    let rest = given j entries in if slot == j then as_dict value else rest

-- What a read returns, where the entries give an item, and where they do not.
abbrev pub after : ℕ → Option ItemNbt → Result (Option ItemNbt) → Result (Option ItemNbt)
after j (some item) before = ok (some (stored_item j item))
after j none before = before

after-empty : (j : ℕ) (o : Option ItemNbt) → after j o (ok none) ≡ ok (Option.map (stored_item j) o)
after-empty j (some item) = refl
after-empty j none = refl

set_items-cons :
    (slot : ℤ) (value : Value) (entries : List (ℤ × Value)) (occupied : List ℤ)
    (v w : StorageItemView)
    → set_items occupied v ((slot, value) ∷ entries) ≡ ok w
    → (contains occupied slot ≡ false)
      × (next : StorageItemView) × (set_item v (int slot) value ≡ ok next)
      × (set_items (slot ∷ occupied) next entries ≡ ok w)
unfolding set_items
set_items-cons slot value entries occupied v w h = elim (Bool-cases (contains occupied slot)) [
  | inl again ↦ ground (arith, again, h)
  | inr new ↦
      let (next, set, rest) =
        >>=-eq-ok (set_item v (int slot) value) (λ next. set_items (slot ∷ occupied) next entries)
          (ground (arith, new, h)) in
      (new, next, set, rest)
]

-- The loop never gives a slot that is occupied.
set_items-new :
    (entries : List (ℤ × Value)) (occupied : List ℤ) (v w : StorageItemView) (j : ℤ)
    → set_items occupied v entries ≡ ok w
    → contains occupied j ≡ true
    → given j entries ≡ none
unfolding given
set_items-new [] occupied v w j h taken = refl
set_items-new ((slot, value) ∷ entries) occupied v w j h taken =
    let (new, next, set, later) = set_items-cons slot value entries occupied v w h in
    let rest = set_items-new entries (slot ∷ occupied) next w j later (ground (arith, taken)) in
    ground (arith, new, taken, rest)

check_slot-int :
    (v : StorageItemView) (slot : ℤ) (i : ℕ) → check_slot v (int slot) ≡ ok i → slot ≡ pos i
unfolding check_slot int_below
check_slot-int v slot i h = ground (arith, h)

set_items-get_item :
    (entries : List (ℤ × Value)) (occupied : List ℤ) (v w : StorageItemView)
    (es : List StorageItemEntry)
    → entries_of v ≡ ok es
    → set_items occupied v entries ≡ ok w
    → (w.rules ≡ v.rules)
      × ((j : ℕ)
          → j < v.rules.slot_capacity
          → get_item w (int (pos j)) ≡ after j (given (pos j) entries) (get_item v (int (pos j))))
unfolding set_items given
set_items-get_item [] occupied v w es read h =
    let same = ok_injective v w h in
    (ap (λ w. w.rules) (sym same), λ j below. ap (λ w. get_item w (int (pos j))) (sym same))
set_items-get_item ((slot, value) ∷ entries) occupied v w es read h =
    let (new, next, set, later) = set_items-cons slot value entries occupied v w h in
    let (i, item, checked, is_dict, one) = set_item-get_item v next (int slot) value es read set in
    let ((es', readable), same) = set_item-readable v next (int slot) value es read set in
    let (rules, rest) = set_items-get_item entries (slot ∷ occupied) next w es' readable later in
    let here = check_slot-int v slot i checked in
    (
      rules ∙ same,
      λ j below.
          let others = rest j (subst (λ r. j < r.slot_capacity) (sym same) below) in
          elim (Bool-cases (slot == pos j)) [
            | inl this ↦ ground (
              arith,
              others,
              one j below,
              is_dict,
              here,
              this,
              pos_injective i j,
              set_items-new entries (slot ∷ occupied) next w (pos j) later (ground (arith, this)),
            )
            | inr other ↦ ground (arith, others, one j below, here, other, pos_injective i j)
          ],
    )

open_compound-rules :
    (create : Bool) (rules : StorageItemRules) (item : ItemNbt) (v : StorageItemView)
    → open_compound create rules item ≡ ok v
    → v.rules ≡ rules
unfolding open_compound
open_compound-rules create rules item v h = ground (arith, h)

-- After a `replace_contents` that succeeds, whatever the view held before, each slot in range
-- reads as the item that the entries give to it, with its `Slot` entry set, or as empty where they
-- give none.
pub replace_contents-get_item :
    (v w : StorageItemView) (entries : List (ℤ × Value)) (j : ℕ)
    → replace_contents v entries ≡ ok w
    → j < v.rules.slot_capacity
    → get_item w (int (pos j)) ≡ ok (Option.map (stored_item j) (given (pos j) entries))
unfolding replace_contents sort find
replace_contents-get_item v w entries j h below =
    let (candidate, made, h) = >>=-eq-ok (open_compound false v.rules v.item) _ h in
    let ((ready, inner, values), start, h) =
      >>=-eq-ok (mutable_contents false candidate.item) _ h in
    let cleared : StorageItemView = record candidate { item = put_contents [] inner ready } in
    let (filled, set, h) = >>=-eq-ok (set_items [] cleared entries) _ h in
    let kept = open_compound-rules false v.rules v.item candidate made in
    let inside = subst (λ r. j < r.slot_capacity) (sym kept) below in
    let (rules, read) =
      set_items-get_item entries [] cleared filled []
        (Reads-entries_of cleared [] [] (contents-put_contents [] inner ready) tt) set in
    let empty = get_item-edited candidate [] [] inner ready j tt inside in
    let same_view : filled ≡ w =
      ap (λ r. record { item = filled.item; rules = r }) (rules ∙ kept) ∙ ok_injective _ w h in
    ap (λ w. get_item w (int (pos j))) (sym same_view)
    ∙ read j inside
    ∙ ap (after j (given (pos j) entries)) empty
    ∙ after-empty j (given (pos j) entries)
