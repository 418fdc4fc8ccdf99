-- ===== src/StorageItem/Reading.antt =====
-- What storage_item.py reads from an item compound: its identifier, count, tag and contents.
use Prim.Native.Nat.{◌-◌}
use Prim.Native.String.{len, slice}
use text.Mathlib.Text.{starts_with}
use endstone_blockdata_api.Base.{
  ℕ, String, Bool, true, false, not, ◌&&◌, ◌||◌, Option, none, some, List, [], ◌∷◌, ◌==◌, leb,
  if◌then◌else◌, string_eq,
}
use endstone_blockdata_api.Base.Int.{ℤ}
use endstone_blockdata_api.Base.Dict
use endstone_blockdata_api.Nbt.{Value, ItemNbt, as_dict, as_list, as_str, as_int, get_first}
use endstone_blockdata_api.StorageItem.Rules.{int_between}

abbrev pub storage_item_contents_key : String
storage_item_contents_key = "storage_item_component_content"

-- A value that is a text, and not the empty one.
unfoldable pub name_in : Value → Option String
name_in v = elim (as_str v) [ none ↦ none | some s ↦ if s == "" then none else some s ]

-- The first of the keys whose value is such a text.
unfoldable pub first_name : List String → ItemNbt → Option String
first_name [] item = none
first_name (key ∷ keys) item =
    let rest = first_name keys item in
    elim (Dict.lookup key item) [
      | none ↦ rest
      | some v ↦ elim (name_in v) [ some s ↦ some s | none ↦ rest ]
    ]

-- `_identifier`
unfoldable pub identifier : ItemNbt → Option String
identifier item = first_name ("Name" ∷ "name" ∷ "id" ∷ []) item

-- `_count`: one where no count is written.
unfoldable pub count : ItemNbt → Option ℕ
count item = elim (get_first "Count" "count" item) [ none ↦ some 1 | some v ↦ int_between 1 255 v ]

-- `_tag`
unfoldable pub tag : ItemNbt → Option ItemNbt
tag item = elim (get_first "tag" "user_data" item) [ none ↦ none | some v ↦ as_dict v ]

unfoldable pub has : String → ItemNbt → Bool
has key item = elim (Dict.lookup key item) [ none ↦ false | some v ↦ true ]

-- `_has_tag_field`
unfoldable pub has_tag_field : ItemNbt → Bool
has_tag_field item = has "tag" item || has "user_data" item

-- `_contents`
unfoldable pub contents : ItemNbt → Option (List Value)
contents item = elim (tag item) [
  | none ↦ none
  | some inner ↦ elim (Dict.lookup storage_item_contents_key inner) [
    | none ↦ none
    | some v ↦ as_list v
  ]
]

-- `_has_contents_field`
unfoldable pub has_contents_field : ItemNbt → Bool
has_contents_field item = elim (tag item) [
  | none ↦ false
  | some inner ↦ has storage_item_contents_key inner
]

-- `s.removeprefix(prefix)` of a text that starts so, and `s.endswith(suffix)`
abbrev pub remove_prefix : String → String → String
remove_prefix s start = slice s (len start) (len s)

abbrev pub ends_with : String → String → Bool
ends_with s last = leb (len last) (len s) && slice s (len s - len last) (len s) == last

unfoldable pub is_vanilla_bundle_identifier : String → Bool
is_vanilla_bundle_identifier s =
    if not (starts_with s "minecraft:")
    then false
    else let name = remove_prefix s "minecraft:" in name == "bundle" || ends_with name "_bundle"

-- `_is_shulker_box`
unfoldable pub is_shulker_box : String → Bool
is_shulker_box s =
    if not (starts_with s "minecraft:")
    then false
    else let name = remove_prefix s "minecraft:" in
      (name == "shulker_box" || name == "undyed_shulker_box") || ends_with name "_shulker_box"

unfoldable pub is_storage_item_nbt : ItemNbt → Bool
is_storage_item_nbt item =
    elim (identifier item) [ none ↦ false | some s ↦ is_vanilla_bundle_identifier s ]
    || has_contents_field item

-- `entry.get("Slot", entry.get("slot"))`, where it is an `int` that is no `bool`
unfoldable pub slot_of : ItemNbt → Option ℤ
slot_of entry = elim (get_first "Slot" "slot" entry) [ none ↦ none | some v ↦ as_int v ]
