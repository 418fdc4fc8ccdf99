-- ===== src/Nbt/Equal.antt =====
-- Python's `==` on such values. Compounds compare without regard to the order of their keys, and
-- a Boolean equals the integer 0 or 1.
use endstone_blockdata_api.Base.{
  ◌≡◌, refl, String, Bool, true, false, ◌&&◌, none, some, List, [], ◌∷◌, arith, ◌==◌, string_eq,
  nat_eq, ==_refl,
}
use endstone_blockdata_api.Base.Int.{ℤ, pos, int_eq}
use endstone_blockdata_api.Base.Lists.{length}
use endstone_blockdata_api.Base.Dict
use endstone_blockdata_api.Nbt.{
  Value, null, bool, int, str, list, dict, opaque, Items, nil, cons, Fields, end, field, elements,
  entries, ItemNbt, as_dict, as_list,
}

unfoldable pub bool_to_int : Bool → ℤ
bool_to_int true = pos 1
bool_to_int false = pos 0

-- `value == n` for an integer `n`.
unfoldable pub is_int : Value → ℤ → Bool
unfolding bool_to_int
is_int (int m) n = m == n
is_int (bool b) n = bool_to_int b == n
is_int _ n = false

unfoldable mutual
  unfolding is_int bool_to_int as_dict as_list

  pub value_eq : Value → Value → Bool
  value_eq null w = elim w [ null ↦ true | _ ↦ false ]
  value_eq (bool b) w = is_int w (bool_to_int b)
  value_eq (int n) w = is_int w n
  value_eq (str s) w = elim w [ str t ↦ s == t | _ ↦ false ]
  value_eq (opaque s) w = elim w [ opaque t ↦ s == t | _ ↦ false ]
  value_eq (list xs) w = elim (as_list w) [ some ys ↦ items_eq xs ys | none ↦ false ]
  value_eq (dict fs) w = elim (as_dict w) [
    | some d ↦ length (entries fs) == length d && fields_in fs d
    | none ↦ false
  ]

  pub items_eq : Items → List Value → Bool
  items_eq nil [] = true
  items_eq nil (w ∷ ws) = false
  items_eq (cons v vs) [] = false
  items_eq (cons v vs) (w ∷ ws) = value_eq v w && items_eq vs ws

  -- Every entry of the first compound is in the second, with an equal value.
  pub fields_in : Fields → ItemNbt → Bool
  fields_in end d = true
  fields_in (field k v fs) d = elim (Dict.lookup k d) [
    | some w ↦ value_eq v w && fields_in fs d
    | none ↦ false
  ]

-- What Python's dicts give for nothing: no key twice, at any depth.
abbrev mutual
  pub IsProper : Value → Type 0
  IsProper null = Unit
  IsProper (bool b) = Unit
  IsProper (int n) = Unit
  IsProper (str s) = Unit
  IsProper (opaque s) = Unit
  IsProper (list vs) = AllProper vs
  IsProper (dict fs) = IsProperFields fs

  pub AllProper : Items → Type 0
  AllProper nil = Unit
  AllProper (cons v vs) = IsProper v × AllProper vs

  pub IsProperFields : Fields → Type 0
  IsProperFields end = Unit
  IsProperFields (field k v fs) =
      (Dict.lookup k (entries fs) ≡ none) × IsProper v × IsProperFields fs

is_int-bool : (b : Bool) → is_int (bool b) (bool_to_int b) ≡ true
unfolding is_int
is_int-bool b = ==_refl (bool_to_int b)

-- Every entry that the compound `e` shows is one of `d`.
record Covers (e d : ItemNbt) : Type 0 where
  at : (k : String) (v : Value) → Dict.lookup k e ≡ some v → Dict.lookup k d ≡ some v

Covers-head :
    {k : String} {v : Value} {e d : ItemNbt} → Covers ((k, v) ∷ e) d → Dict.lookup k d ≡ some v
Covers-head {k} {v} {e} h = h.at k v (ground (arith, Dict.lookup-cons k k v e))

Covers-tail :
    {k : String} {v : Value} {e d : ItemNbt}
    → Dict.lookup k e ≡ none
    → Covers ((k, v) ∷ e) d
    → Covers e d
Covers-tail {k} {v} {e} fresh h = record {
  at = λ j w p. h.at j w (ground (arith, Dict.lookup-cons j k v e));
}

mutual
  unfolding value_eq elements entries

  value_eq_self : (v : Value) → IsProper v → value_eq v v ≡ true
  value_eq_self null p = refl
  value_eq_self (bool b) p = is_int-bool b
  value_eq_self (int n) p = ==_refl n
  value_eq_self (str s) p = ==_refl s
  value_eq_self (opaque s) p = ==_refl s
  value_eq_self (list vs) p = items_eq_self vs p
  value_eq_self (dict fs) p = ground (
    arith,
    fields_in_self fs (entries fs) p (record { at = λ k v h. h }),
    ==_refl (length (entries fs)),
  )

  items_eq_self : (vs : Items) → AllProper vs → items_eq vs (elements vs) ≡ true
  items_eq_self nil p = refl
  items_eq_self (cons v vs) p = ground (arith, value_eq_self v p.0, items_eq_self vs p.1)

  fields_in_self :
      (fs : Fields) (d : ItemNbt)
      → IsProperFields fs
      → Covers (entries fs) d
      → fields_in fs d ≡ true
  fields_in_self end d p h = refl
  fields_in_self (field k v fs) d p h =
      ground
        (arith, Covers-head h, value_eq_self v p.1, fields_in_self fs d p.2 (Covers-tail p.0 h))

-- A value is equal to itself.
pub value_eq_refl : (v : Value) → IsProper v → value_eq v v ≡ true
value_eq_refl v p = value_eq_self v p
