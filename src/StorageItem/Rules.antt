-- ===== src/StorageItem/Rules.antt =====
-- `StorageItemRules` of storage_item.py, with the checks of its constructor.
use endstone_blockdata_api.Base.{
  ℕ, String, Bool, ◌&&◌, Option, none, some, List, leb, if◌then◌else◌, Result, ok, err, value_error,
  ltb, ◌>>=◌,
}
use endstone_blockdata_api.Base.Int.{pos}
use endstone_blockdata_api.Nbt.{Value, int}

-- An `int` that is no `bool`, from `lo` to `hi`: the number that it is.
unfoldable pub int_between : ℕ → ℕ → Value → Option ℕ
int_between lo hi (int (pos n)) = if leb lo n && leb n hi then some n else none
int_between lo hi _ = none

-- The same, below `hi`.
unfoldable pub int_below : ℕ → Value → Option ℕ
int_below hi (int (pos n)) = if ltb n hi then some n else none
int_below hi _ = none

-- The rules hold numbers that the constructor accepted.
pub record StorageItemRules : Type 0 where
  pub slot_capacity : ℕ
  pub max_weight : ℕ
  pub nested_storage_item_weight : ℕ
  pub allow_nested_storage_items : Bool
  pub reject_shulker_boxes : Bool
  pub allowed_items : List String
  pub banned_items : List String

unfoldable pub accept : Option ℕ → String → Result ℕ
accept (some n) message = ok n
accept none message = err (value_error message)

-- `StorageItemRules(...)` and its `__post_init__`
unfoldable pub make_rules :
    Value → Value → Value → Bool → Bool → List String → List String → Result StorageItemRules
make_rules slots weight nested allow reject allowed banned = do
  capacity ← accept (int_between 1 64 slots) "storage item slot capacity must be between 1 and 64"
  most ← accept (int_between 1 64 weight) "storage item maximum weight must be between 1 and 64"
  inner ←
      accept (int_between 0 most nested) "nested storage item weight is outside the supported range"
  ok (record {
    slot_capacity = capacity;
    max_weight = most;
    nested_storage_item_weight = inner;
    allow_nested_storage_items = allow;
    reject_shulker_boxes = reject;
    allowed_items = allowed;
    banned_items = banned;
  })
