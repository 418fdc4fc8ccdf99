-- ===== src/Shelf/Patches.antt =====
-- What a patch that a shelf view builds may hold.
use endstone_blockdata_api.Base.{
  ℕ, ◌<◌, ◌≡◌, ◌≢◌, refl, ap, sym, subst, ◌∙◌, true, false, not, Option, none, some, List, [], ◌∷◌,
  contains, arith, ok, require, require-ok, map_result, map_result-cons, map_result-All,
  ok_injective, >>=-eq-ok, Option-cases, inl, inr, String, string_eq,
}
use endstone_blockdata_api.Base.Int.{ℤ, pos, ◌≤ℤ◌, int_eq}
use endstone_blockdata_api.Base.Lists.{All}
use endstone_blockdata_api.Base.Dict
use endstone_blockdata_api.Base.Dict.{Dict, NodupKeys, keys}
use endstone_blockdata_api.Nbt.{Value, int, ItemNbt, as_dict}
use endstone_blockdata_api.Nbt.Equal.{value_eq, is_int}
use endstone_blockdata_api.Model.{BlockPatch}
use endstone_blockdata_api.Memory.{patch_block}
use endstone_blockdata_api.Shelf.{
  ShelfKind, ShelfView, capacity, validate_slot, validate_item, validate_name, validate_count,
  identifier_of, count_of, accepts, shelf_patch, among, check_update, check_removal, patch_items,
  patch_item,
}
use endstone_blockdata_api.Shelf.Contents.{validate_slot_iff}

-- What a shelf takes: an item with a text identifier and a count from 1 to 255; a chiseled bookshelf
-- takes single books only.
pub record IsStock (k : ShelfKind) (item : ItemNbt) : Type 0 where
  pub identifier : String
  pub count : ℤ
  pub named : identifier_of item ≡ some identifier
  pub nonempty : identifier ≢ ""
  pub counted : count_of item ≡ some count
  pub positive : pos 1 ≤ℤ count
  pub at_most : count ≤ℤ pos 255
  pub accepted : accepts k identifier count ≡ true

validate_count-ok :
    (k : ShelfKind) (identifier : String) (c : Option ℤ) (item valid : ItemNbt)
    → validate_count k identifier c item ≡ ok valid
    → (n : ℤ) × (c ≡ some n)
      × (pos 1 ≤ℤ n)
      × (n ≤ℤ pos 255)
      × (accepts k identifier n ≡ true)
      × (item ≡ valid)
unfolding validate_count
validate_count-ok k identifier none item valid h = cc
validate_count-ok k identifier (some n) item valid h =
    (n, refl, ground arith, ground arith, ground arith, ground arith)

validate_name-ok :
    (k : ShelfKind) (name : Option String) (item valid : ItemNbt)
    → validate_name k name item ≡ ok valid
    → (identifier : String) × (name ≡ some identifier)
      × (identifier ≢ "")
      × (validate_count k identifier (count_of item) item ≡ ok valid)
unfolding validate_name
validate_name-ok k none item valid h = cc
validate_name-ok k (some identifier) item valid h = (identifier, refl, ground arith, ground arith)

validate_item-name :
    (v : ShelfView) (value : Value) (valid : ItemNbt)
    → validate_item v value ≡ ok valid
    → (item : ItemNbt) × (as_dict value ≡ some item)
      × (validate_name v.kind (identifier_of item) item ≡ ok valid)
unfolding validate_item
validate_item-name v value valid h = elim (Option-cases (as_dict value)) [
  | inl n ↦ absurd (ground arith)
  | inr (item, e) ↦ (item, e, ground arith)
]

-- An item that the view accepts is a compound, unchanged, and is stock of the shelf's kind.
pub validate_item-ok :
    (v : ShelfView) (value : Value) (valid : ItemNbt)
    → validate_item v value ≡ ok valid
    → (as_dict value ≡ some valid) × IsStock v.kind valid
validate_item-ok v value valid h =
    let (item, found, names) = validate_item-name v value valid h in
    let (identifier, named, nonempty, counts) =
      validate_name-ok v.kind (identifier_of item) item valid names in
    let (n, counted, positive, at_most, accepted, same) =
      validate_count-ok v.kind identifier (count_of item) item valid counts in
    (
      found ∙ ap some same,
      subst (IsStock v.kind) same (record {
        identifier = identifier;
        count = n;
        named = named;
        nonempty = nonempty;
        counted = counted;
        positive = positive;
        at_most = at_most;
        accepted = accepted;
      }),
    )

-- A patch that a shelf view may send: to the view's block and revision, with stock in slots of the
-- shelf, and with removals of slots of the shelf that it does not update.
pub record IsShelfPatch (v : ShelfView) (p : BlockPatch) : Type 0 where
  pub located : p.location ≡ v.snapshot.location
  pub expects : p.expected_revision ≡ some v.snapshot.revision
  pub updates :
      All (λ u. (i : ℕ) × (u.0 ≡ pos i) × (i < capacity v) × IsStock v.kind u.1) p.inventory_updates
  pub removals : All (λ r. (i : ℕ) × (r ≡ pos i) × (i < capacity v)) p.inventory_removals
  pub apart : All (λ u. contains p.inventory_removals u.0 ≡ false) p.inventory_updates
  pub block_kept : patch_block p v.snapshot ≡ v.snapshot

pub check_update-ok :
    (v : ShelfView) (removals : List Value) (update : Value × Value) (u : ℤ × ItemNbt)
    → check_update v removals update ≡ ok u
    → (i : ℕ) × (u.0 ≡ pos i)
      × (i < capacity v)
      × IsStock v.kind u.1
      × (update.0 ≡ int (pos i))
      × (among (int (pos i)) removals ≡ false)
      × (as_dict update.1 ≡ some u.1)
unfolding check_update
check_update-ok v removals (slot, item) u h =
    let (i, valid_slot, h₁) = >>=-eq-ok (validate_slot v slot) _ h in
    let (valid, valid_item, h₂) = >>=-eq-ok (validate_item v item) _ h₁ in
    let (t, alone, h₃) = >>=-eq-ok (require (not (among slot removals)) _) _ h₂ in
    let e : u ≡ (pos i, valid) = sym (ok_injective (pos i, valid) u h₃) in
    let (same, below) = (validate_slot_iff v slot i).0 valid_slot in
    (
      i,
      ap (λ w. w.0) e,
      below,
      subst (λ w. IsStock v.kind w.1) (sym e) (validate_item-ok v item valid valid_item).1,
      same,
      ground (arith, require-ok _ _ t alone, ap (λ w. among w removals) same),
      (validate_item-ok v item valid valid_item).0 ∙ ap (λ w. some w.1) (sym e),
    )

check_removal-ok :
    (v : ShelfView) (slot : Value) (r : ℤ)
    → check_removal v slot ≡ ok r
    → (i : ℕ) × (r ≡ pos i) × (i < capacity v) × (slot ≡ int r)
unfolding check_removal
check_removal-ok v slot r h =
    let (i, valid, rest) = >>=-eq-ok (validate_slot v slot) _ h in
    let e = ok_injective (pos i) r rest in
    let (same, below) = (validate_slot_iff v slot i).0 valid in (i, sym e, below, same ∙ ap int e)

-- The slots that a patch removes are the removals that were asked for.
pub contains-removals :
    (v : ShelfView) (k : ℤ) (removals : List Value) (cleared : List ℤ)
    → map_result (check_removal v) removals ≡ ok cleared
    → contains cleared k ≡ among (int k) removals
unfolding among map_result value_eq is_int
contains-removals v k [] cleared h = ap (λ l. contains l k) (sym (ok_injective [] cleared h))
contains-removals v k (r ∷ removals) cleared h =
    let (c, cs, head, tail, same) = map_result-cons (check_removal v) r removals cleared h in
    let (i, index, below, known) = check_removal-ok v r c head in
    ground (arith, contains-removals v k removals cs tail, known, same)

-- Whatever updates and removals are asked for, a patch that `patch_items` returns is one that the
-- shelf may be sent: stock in slots of the shelf, no slot both updated and removed, at the view's
-- location and revision, and with the block's type and states left alone.
pub patch_items-IsShelfPatch :
    (v : ShelfView) (updates : List (Value × Value)) (removals : List Value) (p : BlockPatch)
    → patch_items v updates removals ≡ ok p
    → IsShelfPatch v p
unfolding patch_items patch_block Dict.update Dict.erase_all
patch_items-IsShelfPatch v updates removals p h =
    let (valid, all_valid, h₁) = >>=-eq-ok (map_result (check_update v removals) updates) _ h in
    let (cleared, all_cleared, h₂) = >>=-eq-ok (map_result (check_removal v) removals) _ h₁ in
    subst (IsShelfPatch v) (ok_injective (shelf_patch v valid cleared) p h₂) (record {
      located = refl;
      expects = refl;
      updates =
          map_result-All (check_update v removals) _
            (λ x u e. let w = check_update-ok v removals x u e in (w.0, w.1, w.2, w.3)) updates
            valid all_valid;
      removals =
          map_result-All (check_removal v) _
            (λ x r e. let w = check_removal-ok v x r e in (w.0, w.1, w.2)) removals cleared
            all_cleared;
      apart =
          map_result-All (check_update v removals) _
            (λ x u e.
              let w = check_update-ok v removals x u e in
              ap (contains cleared) w.1
              ∙ contains-removals v (pos w.0) removals cleared all_cleared
              ∙ w.5)
            updates valid all_valid;
      block_kept = refl;
    })

-- A patch that `patch_item` returns is one that the shelf may be sent, and updates one slot.
pub patch_item-IsShelfPatch :
    (v : ShelfView) (slot item : Value) (p : BlockPatch)
    → patch_item v slot item ≡ ok p
    → IsShelfPatch v p
unfolding patch_item patch_block Dict.update Dict.erase_all
patch_item-IsShelfPatch v slot item p h =
    let (i, valid_slot, h₁) = >>=-eq-ok (validate_slot v slot) _ h in
    let (valid, valid_item, h₂) = >>=-eq-ok (validate_item v item) _ h₁ in
    subst (IsShelfPatch v) (ok_injective (shelf_patch v ((pos i, valid) ∷ []) []) p h₂) (record {
      located = refl;
      expects = refl;
      updates = (
        (
          i,
          refl,
          ((validate_slot_iff v slot i).0 valid_slot).1,
          (validate_item-ok v item valid valid_item).1,
        ),
        tt,
      );
      removals = tt;
      apart = (refl, tt);
      block_kept = refl;
    })
