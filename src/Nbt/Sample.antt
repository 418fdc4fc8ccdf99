-- ===== src/Nbt/Sample.antt =====
-- A digest that runs, for the tests: it weighs a value instead of hashing it.
use Prim.Native.Char.{code}
use Prim.Native.String.{len}
use endstone_blockdata_api.Base.{
  ℕ, suc, ◌+◌, ◌*◌, ◌-◌, String, true, ◌&&◌, leb, if◌then◌else◌, Result, ok, err, value_error,
  type_error,
}
use endstone_blockdata_api.Base.Int.{ℤ, pos, abs}
use endstone_blockdata_api.Nbt.{
  Value, null, bool, int, str, list, dict, opaque, Items, nil, cons, Fields, end, field,
}
use endstone_blockdata_api.Nbt.Conversion.{Conversions}

unfoldable mutual
  pub weight : Value → ℕ
  weight null = 1
  weight (bool b) = 1
  weight (int n) = suc (abs n)
  weight (str s) = suc (len s)
  weight (opaque s) = suc (len s)
  weight (list vs) = suc (weight_items vs)
  weight (dict fs) = suc (weight_fields fs)

  pub weight_items : Items → ℕ
  weight_items nil = 0
  weight_items (cons v vs) = weight v + weight_items vs

  pub weight_fields : Fields → ℕ
  weight_fields end = 0
  weight_fields (field k v fs) = len k + weight v + weight_fields fs

-- Conversions that run, for the tests: a text of decimal digits is its number.
unfoldable pub digits_from : ℕ → String → Result ℤ
digits_from n String.[] = ok (pos n)
digits_from n (String.◌∷◌ c rest) =
    let next = digits_from (10 * n + (code c - 48)) rest in
    if leb 48 (code c) && leb (code c) 57 then next else err (value_error "not a number")

unfoldable pub digits : String → Result ℤ
unfolding digits_from
digits String.[] = err (value_error "not a number")
digits s = digits_from 0 s

unfoldable pub plain : Conversions
unfolding digits
plain = record {
  int_of_text = digits;
  int_of_opaque = digits;
  opaque_is_true = λ s. true;
  print = λ v. "?";
  dict_of_other = λ v. err (type_error "not a dict");
}
