-- ===== src/Nbt.antt =====
-- Python values as the package holds them: item compounds, NBT and JSON mappings.
-- A float or a byte array is an `opaque` value, known by its text alone; a float equal to an
-- integer is not told apart from one that is not.
pub mod Equal
pub mod Canonical
pub mod Conversion
pub mod Sample
use endstone_blockdata_api.Base.{
  ℕ, ◌≡◌, refl, ap, String, Bool, true, false, Option, none, some, List, [], ◌∷◌, string_eq,
}
use endstone_blockdata_api.Base.Int.{ℤ}
use endstone_blockdata_api.Base.Dict
use endstone_blockdata_api.Base.Dict.{Dict}

mutual
  pub data Fields : Type 0 where
    field : (key : String) (value : Value) (others : Fields) → Fields
    end : Fields

  pub data Value : Type 0 where
    dict : (fields : Fields) → Value
    list : (items : Items) → Value
    null : Value
    bool : (flag : Bool) → Value
    int : (number : ℤ) → Value
    str : (text : String) → Value
    opaque : (text : String) → Value

  pub data Items : Type 0 where
    cons : (value : Value) (others : Items) → Items
    nil : Items

-- `ItemNbt = dict[str, Any]`
abbrev pub ItemNbt : Type 0
ItemNbt = Dict String Value

-- The contents of a list value and of a compound, as lists, and back.
unfoldable pub elements : Items → List Value
elements nil = []
elements (cons v vs) = v ∷ elements vs

unfoldable pub of_elements : List Value → Items
of_elements [] = nil
of_elements (v ∷ vs) = cons v (of_elements vs)

unfoldable pub entries : Fields → ItemNbt
entries end = []
entries (field k v fs) = (k, v) ∷ entries fs

unfoldable pub of_entries : ItemNbt → Fields
of_entries [] = end
of_entries ((k, v) ∷ d) = field k v (of_entries d)

pub elements-of_elements : (vs : List Value) → elements (of_elements vs) ≡ vs
unfolding elements of_elements
elements-of_elements [] = refl
elements-of_elements (v ∷ vs) = ap (λ l. v ∷ l) (elements-of_elements vs)

pub entries-of_entries : (d : ItemNbt) → entries (of_entries d) ≡ d
unfolding entries of_entries
entries-of_entries [] = refl
entries-of_entries ((k, v) ∷ d) = ap (λ l. (k, v) ∷ l) (entries-of_entries d)

abbrev pub compound : ItemNbt → Value
compound d = dict (of_entries d)

abbrev pub sequence : List Value → Value
sequence vs = list (of_elements vs)

-- `isinstance(value, dict)`, `isinstance(value, list)` and `isinstance(value, str)`
unfoldable pub as_dict : Value → Option ItemNbt
as_dict (dict fs) = some (entries fs)
as_dict _ = none

unfoldable pub as_list : Value → Option (List Value)
as_list (list vs) = some (elements vs)
as_list _ = none

unfoldable pub as_str : Value → Option String
as_str (str s) = some s
as_str _ = none

-- `isinstance(value, int) and not isinstance(value, bool)`
unfoldable pub as_int : Value → Option ℤ
as_int (int n) = some n
as_int _ = none

pub as_dict-compound : (d : ItemNbt) → as_dict (compound d) ≡ some d
unfolding as_dict
as_dict-compound d = ap some (entries-of_entries d)

pub as_list-sequence : (vs : List Value) → as_list (sequence vs) ≡ some vs
unfolding as_list
as_list-sequence vs = ap some (elements-of_elements vs)

-- `item.get(key, item.get(other))` is the first key that is present, whatever it holds.
unfoldable pub get_first : String → String → ItemNbt → Option Value
get_first key other item = elim (Dict.lookup key item) [
  | some v ↦ some v
  | none ↦ Dict.lookup other item
]
