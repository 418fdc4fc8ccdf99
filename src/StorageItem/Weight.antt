-- ===== src/StorageItem/Weight.antt =====
-- The unit weight of an item in storage_item.py.
use Prim.Native.Nat.{◌+◌, ◌-◌, ◌/◌}
use endstone_blockdata_api.Base.{
  ℕ, String, not, ◌&&◌, Option, none, some, List, [], ◌∷◌, if◌then◌else◌, Result, ok, err,
  value_error, string_eq,
}
use endstone_blockdata_api.Base.Int.{ℤ, pos, negsuc, pos_part, leb_ℤ, ltb_ℤ}
use endstone_blockdata_api.Base.Dict
use endstone_blockdata_api.Nbt.{Value, null, int, ItemNbt, as_int}

-- Both numbers are positive at the division, which rounds up.
unfoldable pub storage_weight_from_max_stack_size : ℤ → ℤ → Result ℤ
storage_weight_from_max_stack_size size most =
    if not (leb_ℤ (pos 1) size && leb_ℤ size (pos 255))
    then err (value_error "max stack size must be between 1 and 255")
    else if ltb_ℤ most (pos 1)
    then err (value_error "maximum weight must be positive")
    else ok (pos ((pos_part most + pos_part size - 1) / pos_part size))

-- `StorageItemWeightResolver`: `null` stands for `None`, and a resolver may raise.
abbrev pub StorageItemWeightResolver : Type 0
StorageItemWeightResolver = String → ItemNbt → Result Value

-- The source is a mapping's `get`, or a function.
unfoldable pub make_max_stack_size_weight_resolver :
    (String → Option ℤ) → ℤ → StorageItemWeightResolver
make_max_stack_size_weight_resolver source most identifier item = elim (source identifier) [
  | none ↦ ok null
  | some size ↦ elim (storage_weight_from_max_stack_size size most) [
    | ok weight ↦ ok (int weight)
    | err e ↦ err e
  ]
]

-- The first of the keys that holds an `int`.
unfoldable pub first_int : List String → ItemNbt → Option ℤ
first_int [] item = none
first_int (key ∷ keys) item =
    let rest = first_int keys item in
    elim (Dict.lookup key item) [
      | none ↦ rest
      | some v ↦ elim (as_int v) [ some n ↦ some n | none ↦ rest ]
    ]

-- `_embedded_weight`: a stack size out of range is the weight -1, which no check accepts.
unfoldable pub embedded_weight : ItemNbt → ℕ → Option ℤ
embedded_weight item most =
    elim (first_int ("_endstone_storage_weight" ∷ "StorageWeight" ∷ "storage_weight" ∷ []) item) [
      | some n ↦ some n
      | none ↦
          elim (first_int ("_endstone_max_stack_size" ∷ "MaxStackSize" ∷ "max_stack_size" ∷ [])
            item) [
              | none ↦ none
              | some size ↦ elim (storage_weight_from_max_stack_size size (pos most)) [
                | ok weight ↦ some weight
                | err e ↦ some (negsuc 0)
              ]
            ]
    ]
