-- ===== src/Nbt/Conversion.antt =====
-- Python's `int()`, `str()` and `bool()` on the values that the package reads from mappings.
use endstone_blockdata_api.Base.{
  String, Bool, true, false, not, none, some, ◌==◌, Result, ok, err, type_error, key_error,
  string_eq,
}
use endstone_blockdata_api.Base.Int.{ℤ, pos, int_eq}
use endstone_blockdata_api.Base.Dict
use endstone_blockdata_api.Nbt.{
  Value, null, bool, int, str, list, dict, opaque, field, cons, end, nil, ItemNbt, entries,
}
use endstone_blockdata_api.Nbt.Equal.{bool_to_int}

-- What Python does with texts: a number's text is read, a value that is no text is printed, an
-- opaque value is rounded or tested, and a value that is no dict may list a dict's entries.
pub record Conversions : Type 0 where
  pub int_of_text : String → Result ℤ
  pub int_of_opaque : String → Result ℤ
  pub opaque_is_true : String → Bool
  pub print : Value → String
  pub dict_of_other : Value → Result ItemNbt

module _ (convert : Conversions) where
  -- `int(value)`
  unfoldable pub to_int : Value → Result ℤ
  to_int (int n) = ok n
  to_int (bool b) = ok (bool_to_int b)
  to_int (str s) = convert.int_of_text s
  to_int (opaque s) = convert.int_of_opaque s
  to_int null = err (type_error "int() of None")
  to_int (list _) = err (type_error "int() of a list")
  to_int (dict _) = err (type_error "int() of a dict")

  -- `str(value)`
  unfoldable pub to_str : Value → String
  to_str (str s) = s
  to_str v = convert.print v

  -- `bool(value)`
  unfoldable pub to_bool : Value → Bool
  to_bool null = false
  to_bool (bool b) = b
  to_bool (int n) = not (n == pos 0)
  to_bool (str s) = not (s == "")
  to_bool (opaque s) = convert.opaque_is_true s
  to_bool (list nil) = false
  to_bool (list (cons _ _)) = true
  to_bool (dict end) = false
  to_bool (dict (field _ _ _)) = true

  -- `dict(value)`
  unfoldable pub to_dict : Value → Result ItemNbt
  to_dict (dict fields) = ok (entries fields)
  to_dict v = convert.dict_of_other v

-- `mapping.get(key, default)` and `mapping[key]`
unfoldable pub get_or : String → Value → ItemNbt → Value
get_or key default mapping = elim (Dict.lookup key mapping) [ none ↦ default | some v ↦ v ]

unfoldable pub get_key : String → ItemNbt → Result Value
get_key key mapping = elim (Dict.lookup key mapping) [ none ↦ err (key_error key) | some v ↦ ok v ]
