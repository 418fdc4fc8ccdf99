-- ===== src/Shelf/Listed.antt =====
-- The removals and the updates that `replace_items` makes of a list.
use endstone_blockdata_api.Base.{
  ℕ, zero, suc, ◌+◌, ◌<◌, ◌≡◌, ◌≢◌, refl, ap, sym, subst, ◌∙◌, true, false, ◌⊎◌, inl, inr, Option,
  none, some, List, [], ◌∷◌, arith, ok, map_result, map_result-cons, ok_injective,
}
use endstone_blockdata_api.Base.Int.{ℤ, pos, int_eq}
use endstone_blockdata_api.Base.Lists.{length, get_elem?}
use endstone_blockdata_api.Base.Dict
use endstone_blockdata_api.Base.Dict.{Dict, NodupKeys}
use endstone_blockdata_api.Nbt.{Value, null, bool, int, str, list, dict, opaque, ItemNbt, as_dict}
use endstone_blockdata_api.Nbt.Equal.{value_eq, is_int}
use endstone_blockdata_api.Shelf.{ShelfView, among, check_update, present, absent}
use endstone_blockdata_api.Shelf.Patches.{check_update-ok}

-- The item that is wanted in a slot: `None` asks for an empty one.
abbrev pub wanted : List Value → ℕ → Option ItemNbt
wanted items i = elim (get_elem? items i) [ some w ↦ as_dict w | none ↦ none ]

-- Each element is either a removal or an update.
pub present-or-absent :
    (k : ℕ) (w : Value) (items : List Value)
    → ((w ≡ null)
        × (present k (w ∷ items) ≡ present (suc k) items)
        × (absent k (w ∷ items) ≡ int (pos k) ∷ absent (suc k) items))
      ⊎ ((w ≢ null)
          × (present k (w ∷ items) ≡ (int (pos k), w) ∷ present (suc k) items)
          × (absent k (w ∷ items) ≡ absent (suc k) items))
unfolding present absent
present-or-absent k null items = inl (refl, refl, refl)
present-or-absent k (bool b) items = inr (λ e. cc, refl, refl)
present-or-absent k (int n) items = inr (λ e. cc, refl, refl)
present-or-absent k (str s) items = inr (λ e. cc, refl, refl)
present-or-absent k (list vs) items = inr (λ e. cc, refl, refl)
present-or-absent k (dict fs) items = inr (λ e. cc, refl, refl)
present-or-absent k (opaque s) items = inr (λ e. cc, refl, refl)

add_suc_eq : (k i : ℕ) → k + suc i ≡ suc k + i
add_suc_eq k i = omega arith

module _ (v : ShelfView) (removals : List Value) where
  abbrev Checked : List (Value × Value) → Dict ℤ ItemNbt → Type 0
  Checked updates ups = map_result (check_update v removals) updates ≡ ok ups

  -- The key and the item of a checked update.
  checked_update :
      (k : ℕ) (w : Value) (u : ℤ × ItemNbt)
      → check_update v removals (int (pos k), w) ≡ ok u
      → (u.0 ≡ pos k) × (as_dict w ≡ some u.1)
  checked_update k w u h =
      let (i, key, below, stock, index, alone, item) =
        check_update-ok v removals (int (pos k), w) u h in
      (ground arith, item)

  pub Checked-cons :
      (k : ℕ) (w : Value) (rest : List (Value × Value)) (ups : Dict ℤ ItemNbt)
      → Checked ((int (pos k), w) ∷ rest) ups
      → (y : ItemNbt) × (ys : Dict ℤ ItemNbt) × (as_dict w ≡ some y)
        × Checked rest ys
        × (ups ≡ (pos k, y) ∷ ys)
  Checked-cons k w rest ups c =
      let (u, ys, head, tail, same) =
        map_result-cons (check_update v removals) (int (pos k), w) rest ups c in
      let (key, item) = checked_update k w u head in
      (u.1, ys, item, tail, sym same ∙ ap (λ j. (j, u.1) ∷ ys) key)

  lookup-below :
      (k j : ℕ) (items : List Value) (ups : Dict ℤ ItemNbt)
      → j < k
      → Checked (present k items) ups
      → Dict.lookup (pos j) ups ≡ none
  unfolding map_result present
  lookup-below k j [] ups h c =
      subst (λ d. Dict.lookup (pos j) d ≡ none) (ok_injective [] ups c) (Dict.lookup-nil (pos j))
  lookup-below k j (w ∷ items) ups h c = elim (present-or-absent k w items) [
    | inl (n, p, a) ↦
        lookup-below (suc k) j items ups (omega arith) (subst (λ l. Checked l ups) p c)
    | inr (n, p, a) ↦
        let (y, ys, item, tail, same) =
          Checked-cons k w (present (suc k) items) ups (subst (λ l. Checked l ups) p c) in
        ground (
          arith,
          same,
          Dict.lookup-cons (pos j) (pos k) y ys,
          lookup-below (suc k) j items ys (omega arith) tail,
        )
  ]

  pub present-NodupKeys :
      (k : ℕ) (items : List Value) (ups : Dict ℤ ItemNbt)
      → Checked (present k items) ups
      → NodupKeys ups
  unfolding map_result present
  present-NodupKeys k [] ups c = subst NodupKeys (ok_injective [] ups c) tt
  present-NodupKeys k (w ∷ items) ups c = elim (present-or-absent k w items) [
    | inl (n, p, a) ↦ present-NodupKeys (suc k) items ups (subst (λ l. Checked l ups) p c)
    | inr (n, p, a) ↦
        let (y, ys, item, tail, same) =
          Checked-cons k w (present (suc k) items) ups (subst (λ l. Checked l ups) p c) in
        subst NodupKeys (sym same) (
          lookup-below (suc k) k items ys (omega arith) tail,
          present-NodupKeys (suc k) items ys tail,
        )
  ]

  pub lookup-present :
      (k i : ℕ) (items : List Value) (ups : Dict ℤ ItemNbt)
      → Checked (present k items) ups
      → Dict.lookup (pos (k + i)) ups ≡ wanted items i
  unfolding map_result present as_dict
  lookup-present k i [] ups c =
      subst (λ d. Dict.lookup (pos (k + i)) d ≡ none) (ok_injective [] ups c)
        (Dict.lookup-nil (pos (k + i)))
  lookup-present k zero (w ∷ items) ups c = elim (present-or-absent k w items) [
    | inl (n, p, a) ↦
        lookup-below (suc k) (k + 0) items ups (omega arith) (subst (λ l. Checked l ups) p c)
        ∙ sym (ap as_dict n)
    | inr (n, p, a) ↦
        let (y, ys, item, tail, same) =
          Checked-cons k w (present (suc k) items) ups (subst (λ l. Checked l ups) p c) in
        ground (arith, same, Dict.lookup-cons (pos (k + 0)) (pos k) y ys, item)
  ]
  lookup-present k (suc i) (w ∷ items) ups c = elim (present-or-absent k w items) [
    | inl (n, p, a) ↦
        ap (λ m. Dict.lookup (pos m) ups) (add_suc_eq k i)
        ∙ lookup-present (suc k) i items ups (subst (λ l. Checked l ups) p c)
    | inr (n, p, a) ↦
        let (y, ys, item, tail, same) =
          Checked-cons k w (present (suc k) items) ups (subst (λ l. Checked l ups) p c) in
        ground (
          arith,
          same,
          Dict.lookup-cons (pos (k + suc i)) (pos k) y ys,
          lookup-present (suc k) i items ys tail,
          add_suc_eq k i,
        )
  ]

among-below : (k j : ℕ) (items : List Value) → j < k → among (int (pos j)) (absent k items) ≡ false
unfolding among absent value_eq is_int
among-below k j [] h = refl
among-below k j (w ∷ items) h = elim (present-or-absent k w items) [
  | inl (n, p, a) ↦ rw a (ground (arith, among-below (suc k) j items))
  | inr (n, p, a) ↦ rw a (among-below (suc k) j items (omega arith))
]

-- A slot of the list is removed exactly when nothing is wanted there.
pub among-absent :
    (k i : ℕ) (items : List Value)
    → i < length items
    → get_elem? items i ≡ some null
    → among (int (pos (k + i))) (absent k items) ≡ true
unfolding among absent value_eq is_int
among-absent k i [] h e = elim h [ ]
among-absent k zero (w ∷ items) h e = elim (present-or-absent k w items) [
  | inl (n, p, a) ↦ rw a (ground arith)
  | inr (n, p, a) ↦ absurd (n (ground arith))
]
among-absent k (suc i) (w ∷ items) h e =
    subst (λ m. among (int (pos m)) (absent k (w ∷ items)) ≡ true) (sym (add_suc_eq k i))
      (elim (present-or-absent k w items) [
        | inl (n, p, a) ↦ rw a (ground (arith, among-absent (suc k) i items (omega arith) e))
        | inr (n, p, a) ↦ rw a (among-absent (suc k) i items (omega arith) e)
      ])
