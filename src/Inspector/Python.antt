-- ===== src/Inspector/Python.antt =====
-- What the inspector uses of Python's texts and of `json`, as parameters, and its values.
use endstone_blockdata_api.Base.{String, Bool, Option, none, some, List, Error, ◌⊎◌, string_eq}
use endstone_blockdata_api.Base.Int.{ℤ}
use endstone_blockdata_api.Base.Dict
use endstone_blockdata_api.Nbt.{Value, null, ItemNbt}
use endstone_blockdata_api.Nbt.Conversion.{Conversions}

-- `str.casefold`, `str.lower`, `str.strip`, `str(error)`, and `json`: `dumps` with compact separators, with
-- Python's own, and `loads`, which gives an error's `msg` or a value.
-- A float that is finite, and the integer that it is where it is one.
pub record Python : Type 0 where
  pub convert : Conversions
  pub casefold : String → String
  pub lower : String → String
  pub strip : String → String
  pub error_text : Error → String
  pub dumps_compact : Value → String
  pub dumps : Value → String
  pub loads : String → String ⊎ Value
  pub is_finite : String → Bool
  pub whole_number : String → Option ℤ

-- `d.get(key)`, and `d.get(key, d.get(other, …, default))`: the first key that is present.
unfoldable pub get : String → ItemNbt → Value
get key d = elim (Dict.lookup key d) [ none ↦ null | some v ↦ v ]

unfoldable pub get_chain : List String → Value → ItemNbt → Value
get_chain List.[] default d = default
get_chain (List.◌∷◌ key keys) default d =
    let rest = get_chain keys default d in elim (Dict.lookup key d) [ none ↦ rest | some v ↦ v ]
