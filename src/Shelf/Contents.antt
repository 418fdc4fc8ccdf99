-- ===== src/Shelf/Contents.antt =====
-- What the view of a shelf shows of each slot.
use endstone_blockdata_api.Base.{
  ℕ, zero, suc, ◌<◌, ◌≡◌, refl, ap, sym, ◌∙◌, true, nat_eq, Option, none, some, List, [], ◌∷◌, map,
  ◌==◌, ==_refl, contains, arith, if◌then◌else◌, ok, ltb, inl, inr, Bool-cases, Result-cases, ◌↔◌,
  subst, ltb→lt, ◌≤◌, then_return,
}
use endstone_blockdata_api.Base.Int.{ℤ, pos, negsuc, ◌≤ℤ◌, ◌<ℤ◌, int_eq}
use endstone_blockdata_api.Base.Lists.{All, length, replicate, set, get_elem?}
use endstone_blockdata_api.Base.Dict.{NodupKeys}
use endstone_blockdata_api.Nbt.{Value, int, ItemNbt, as_int}
use endstone_blockdata_api.Model.{InventorySlotSnapshot, BlockSnapshot}
use endstone_blockdata_api.Memory.{by_slot}
use endstone_blockdata_api.Memory.Inventory.{item_at, inventory_of, entity_inventory}
use endstone_blockdata_api.Container.{first_item}
use endstone_blockdata_api.Container.Laws.{first_item-lookup, first_item-eq-item_at}
use endstone_blockdata_api.Shelf.{
  ShelfView, open_shelf, kind_capacity, capacity, store, fill, slots, validate_slot, get_item,
}
use endstone_blockdata_api.Shelf.Slots.{IsFresh, IsShelf, open_shelf_iff}

first_item-occupied :
    (k : ℤ) (occupied : List ℤ) (xs : List InventorySlotSnapshot)
    → contains occupied k ≡ true
    → IsFresh occupied xs
    → first_item xs k ≡ none
unfolding first_item
first_item-occupied k occupied [] m f = refl
first_item-occupied k occupied (x ∷ xs) m f =
    ground (arith, first_item-occupied k (x.slot ∷ occupied) xs, f.1)

pub IsFresh-NodupKeys :
    (occupied : List ℤ) (xs : List InventorySlotSnapshot)
    → IsFresh occupied xs
    → NodupKeys (map by_slot xs)
IsFresh-NodupKeys occupied [] f = tt
IsFresh-NodupKeys occupied (x ∷ xs) f = (
  ground (
    arith,
    first_item-occupied x.slot (x.slot ∷ occupied) xs,
    f.1,
    ==_refl x.slot,
    first_item-lookup xs x.slot,
  ),
  IsFresh-NodupKeys (x.slot ∷ occupied) xs f.1,
)

get_elem?-set {ℓ} :
    {A : Type ℓ} (xs : List A) (i j : ℕ) (v : A)
    → i < length xs
    → get_elem? (set xs i v) j ≡ (if j == i then some v else get_elem? xs j)
get_elem?-set [] i j v h = elim h [ ]
get_elem?-set (x ∷ xs) zero zero v h = ground arith
get_elem?-set (x ∷ xs) zero (suc j) v h = ground arith
get_elem?-set (x ∷ xs) (suc i) zero v h = ground arith
get_elem?-set (x ∷ xs) (suc i) (suc j) v h = ground (arith, get_elem?-set xs i j v)

length-set {ℓ} : {A : Type ℓ} (xs : List A) (i : ℕ) (v : A) → length (set xs i v) ≡ length xs
length-set [] i v = refl
length-set (x ∷ xs) zero v = refl
length-set (x ∷ xs) (suc i) v = ap suc (length-set xs i v)

length-replicate {ℓ} : {A : Type ℓ} (n : ℕ) (v : A) → length (replicate n v) ≡ n
length-replicate zero v = refl
length-replicate (suc n) v = ap suc (length-replicate n v)

get_elem?-replicate {ℓ} :
    {A : Type ℓ} (n i : ℕ) (v : A) → i < n → get_elem? (replicate n v) i ≡ some v
get_elem?-replicate zero i v h = elim h [ ]
get_elem?-replicate (suc n) zero v h = refl
get_elem?-replicate (suc n) (suc i) v h = get_elem?-replicate n i v (omega arith)

-- A slot that was filled, over what the list held before.
abbrev over : Option ItemNbt → Option (Option ItemNbt) → Option (Option ItemNbt)
over none old = old
over (some item) old = some (some item)

module _ (n : ℕ) where
  get_elem?-store :
      (output : List (Option ItemNbt)) (slot : ℤ) (item : ItemNbt) (i : ℕ)
      → length output ≡ n
      → (pos 0 ≤ℤ slot) × (slot <ℤ pos n)
      → (get_elem? (store output slot item) i
          ≡ (if slot == pos i then some (some item) else get_elem? output i))
        × (length (store output slot item) ≡ n)
  unfolding store
  get_elem?-store output (pos k) item i h r =
      ground (arith, get_elem?-set output k i (some item), length-set output k (some item))
  get_elem?-store output (negsuc k) item i h r = absurd (omega arith)

  get_elem?-fill :
      (xs : List InventorySlotSnapshot) (occupied : List ℤ) (output : List (Option ItemNbt)) (i : ℕ)
      → length output ≡ n
      → All (λ x. (pos 0 ≤ℤ x.slot) × (x.slot <ℤ pos n)) xs
      → IsFresh occupied xs
      → get_elem? (fill output xs) i ≡ over (first_item xs (pos i)) (get_elem? output i)
  unfolding fill first_item
  get_elem?-fill [] occupied output i h r f = refl
  get_elem?-fill (x ∷ xs) occupied output i h r f =
      let stored = get_elem?-store output x.slot x.item i h r.0 in
      ground (
        arith,
        stored,
        first_item-occupied (pos i) (x.slot ∷ occupied) xs,
        f.1,
        get_elem?-fill xs (x.slot ∷ occupied) (store output x.slot x.item) i stored.1 r.1 f.1,
      )

  length-fill :
      (xs : List InventorySlotSnapshot) (output : List (Option ItemNbt))
      → length output ≡ n
      → All (λ x. (pos 0 ≤ℤ x.slot) × (x.slot <ℤ pos n)) xs
      → length (fill output xs) ≡ n
  unfolding fill
  length-fill [] output h r = h
  length-fill (x ∷ xs) output h r =
      length-fill xs (store output x.slot x.item) (get_elem?-store output x.slot x.item 0 h r.0).1
        r.1

get_elem?-beyond {ℓ} : {A : Type ℓ} (xs : List A) (i : ℕ) → length xs ≤ i → get_elem? xs i ≡ none
get_elem?-beyond [] i h = refl
get_elem?-beyond (x ∷ xs) zero h = elim h [ ]
get_elem?-beyond (x ∷ xs) (suc i) h = get_elem?-beyond xs i (omega arith)

validate_slot-ok :
    (v : ShelfView) (slot : Value) (i : ℕ)
    → validate_slot v slot ≡ ok i
    → (slot ≡ int (pos i)) × (i < capacity v)
unfolding validate_slot as_int
validate_slot-ok v (int (pos n)) i h = ground arith
validate_slot-ok v (int (negsuc n)) i h = ground arith
validate_slot-ok v slot i h = ground arith

ok-validate_slot : (v : ShelfView) (i : ℕ) → i < capacity v → validate_slot v (int (pos i)) ≡ ok i
unfolding validate_slot as_int
ok-validate_slot v i h = ground arith

-- A slot is accepted exactly when it is an integer from 0 up to the capacity, not included; a
-- Boolean is not an integer here.
pub validate_slot_iff :
    (v : ShelfView) (slot : Value) (i : ℕ)
    → (validate_slot v slot ≡ ok i) ↔ ((slot ≡ int (pos i)) × (i < capacity v))
validate_slot_iff v slot i = (
  validate_slot-ok v slot i,
  λ h. subst (λ w. validate_slot v w ≡ ok i) (sym h.0) (ok-validate_slot v i h.1),
)

module _ (s : BlockSnapshot) (v : ShelfView) (h : open_shelf s ≡ ok v) where
  is_shelf : IsShelf v.kind v.actor s
  is_shelf = ((open_shelf_iff s v).0 h).1

  pub length-slots : length (slots v) ≡ capacity v
  unfolding slots capacity
  length-slots =
      let n = kind_capacity v.kind in
      length-fill n v.actor.inventory (replicate n none) (length-replicate n none) is_shelf.in_range

  first_item-eq-shown : (j : ℤ) → first_item v.actor.inventory j ≡ item_at (inventory_of s) j
  first_item-eq-shown j =
      first_item-eq-item_at v.actor.inventory j
        (IsFresh-NodupKeys [] v.actor.inventory is_shelf.distinct)
      ∙ ap (λ e. item_at (entity_inventory e) j) (sym is_shelf.actor)

  get_elem?-slots_below :
      (i : ℕ) → i < capacity v → get_elem? (slots v) i ≡ some (item_at (inventory_of s) (pos i))
  unfolding slots capacity
  get_elem?-slots_below i b =
      let n = kind_capacity v.kind in
      ground (
        arith,
        first_item-eq-shown (pos i),
        get_elem?-replicate {A = Option ItemNbt} n i none b,
        get_elem?-fill n v.actor.inventory [] (replicate n none) i (length-replicate n none)
            is_shelf.in_range is_shelf.distinct,
      )

  -- `slots` of a shelf view lists, for each slot of the shelf, the item that the capture shows
  -- there.
  pub get_elem?-slots :
      (i : ℕ)
      → get_elem? (slots v) i
        ≡ (if ltb i (capacity v) then some (item_at (inventory_of s) (pos i)) else none)
  get_elem?-slots i = elim (Bool-cases (ltb i (capacity v))) [
    | inl below ↦ rw below (get_elem?-slots_below i (ltb→lt i (capacity v) below))
    | inr beyond ↦ rw beyond (get_elem?-beyond (slots v) i (ground (arith, length-slots)))
  ]

  -- `get_item` of an opened shelf returns what the capture shows at a slot that is valid, and
  -- raises the error of the slot's check otherwise.
  pub get_item-eq :
      (slot : Value)
      → get_item v slot ≡ then_return (λ i. item_at (inventory_of s) (pos i)) (validate_slot v slot)
  unfolding get_item
  get_item-eq slot = elim (Result-cases (validate_slot v slot)) [
    | inl (i, e) ↦
        rw e (ground (arith, get_elem?-slots_below i ((validate_slot_iff v slot i).0 e).1))
    | inr (x, e) ↦ rw e
  ]
