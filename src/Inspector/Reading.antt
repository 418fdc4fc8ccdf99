-- ===== src/Inspector/Reading.antt =====
-- What the inspector reads from a snapshot's mapping: its inventory, its capacity, its items.
use Prim.Native.String.{count, ◌++◌}
use text.Mathlib.Text.{starts_with}
use endstone_blockdata_api.Base.{
  ℕ, ◌-◌, String, Bool, true, false, not, ◌||◌, Option, none, some, List, [], ◌∷◌, ◌==◌, contains,
  leb, if◌then◌else◌, ok, err, string_eq,
}
use endstone_blockdata_api.Base.Int.{ℤ, pos, leb_ℤ, ltb_ℤ}
use endstone_blockdata_api.Base.Lists.{length}
use endstone_blockdata_api.Base.Texts.{take_chars, on_one_line}
use endstone_blockdata_api.Nbt.{
  Value, null, bool, int, str, dict, end, ItemNbt, as_dict, as_list, as_str, as_int,
}
use endstone_blockdata_api.Nbt.Conversion.{to_int, to_str, to_bool, get_or}
use endstone_blockdata_api.StorageItem.Reading.{
  identifier, tag, has, remove_prefix, ends_with, storage_item_contents_key,
}
use endstone_blockdata_api.Inspector.Python.{Python, get, get_chain}

-- The inventory's entries are mappings; the others are left out.
unfoldable pub dicts_in : List Value → List ItemNbt
dicts_in [] = []
dicts_in (v ∷ vs) = let rest = dicts_in vs in elim (as_dict v) [ none ↦ rest | some d ↦ d ∷ rest ]

-- The inventory of a block entity's mapping.
unfoldable pub entity_entries : ItemNbt → List ItemNbt
entity_entries entity = elim (as_list (get "inventory" entity)) [
  | none ↦ []
  | some entries ↦ dicts_in entries
]

unfoldable pub inventory_entries : ItemNbt → List ItemNbt
inventory_entries snapshot = elim (as_dict (get "block_entity" snapshot)) [
  | none ↦ []
  | some entity ↦ entity_entries entity
]

abbrev pub known_container_blocks : List String
known_container_blocks =
    "minecraft:barrel" ∷ "minecraft:blast_furnace" ∷ "minecraft:brewing_stand" ∷ "minecraft:chest"
    ∷ "minecraft:chiseled_bookshelf" ∷ "minecraft:dispenser" ∷ "minecraft:dropper"
    ∷ "minecraft:furnace" ∷ "minecraft:hopper" ∷ "minecraft:shelf" ∷ "minecraft:smoker"
    ∷ "minecraft:trapped_chest" ∷ []

-- `if not value` of a list: none where it is empty
unfoldable pub unless_empty : List ItemNbt → Option (List ItemNbt)
unless_empty [] = none
unless_empty inventory = some inventory

-- `isinstance(count, int) and count <= 0`; a Boolean is an integer here.
unfoldable pub is_no_count : Value → Bool
is_no_count (int n) = leb_ℤ n (pos 0)
is_no_count (bool b) = not b
is_no_count _ = false

unfoldable pub is_true : Value → Bool
is_true (bool b) = b
is_true _ = false

abbrev pub max_storage_item_label_chars : ℕ
max_storage_item_label_chars = 160

unfoldable pub bounded_item_text : String → String
bounded_item_text value =
    let rendered = on_one_line value in
    if leb (count rendered) max_storage_item_label_chars
    then rendered
    else take_chars (max_storage_item_label_chars - 16) rendered ++ "... [truncated]"

-- `custom_name`, looked for in the tag's `display` where the item has none of its own
unfoldable pub display_name : Value → Value → Value
display_name custom_name tag_value = elim (as_dict tag_value) [
  | none ↦ custom_name
  | some inner ↦ elim (as_dict (get "display" inner)) [
    | none ↦ custom_name
    | some display ↦ get "Name" display
  ]
]

unfoldable pub label_id : Value → String
label_id item_id = elim (as_str item_id) [
  | none ↦ "unknown"
  | some s ↦ if s == "" then "unknown" else s
]

unfoldable pub with_name : String → Option String → String
with_name label none = label
with_name label (some name) = if name == "" then label else label ++ (" (" ++ (name ++ ")"))

-- `_storage_item_identifier` and `_storage_item_tag` of a value that may be no mapping.
unfoldable pub storage_item_identifier : Value → Option String
storage_item_identifier v = elim (as_dict v) [ none ↦ none | some item ↦ identifier item ]

unfoldable pub storage_item_tag : Value → Option ItemNbt
storage_item_tag v = elim (as_dict v) [ none ↦ none | some item ↦ tag item ]

module _ (python : Python) where
  -- `str(value or "")`
  unfoldable pub text_or_empty : Value → String
  text_or_empty v = if to_bool python.convert v then to_str python.convert v else ""

  unfoldable pub looks_like_container_block : ItemNbt → Bool
  looks_like_container_block snapshot =
      let block_type = python.casefold (text_or_empty (get "type" snapshot)) in
      contains known_container_blocks block_type
      || ends_with block_type "_shulker_box"
      || ends_with block_type "_shelf"

  -- A declared size that is positive, or any entry, where `is_container` is no Boolean.
  unfoldable pub undeclared_inventory : ItemNbt → List ItemNbt → Option (List ItemNbt)
  undeclared_inventory entity inventory =
      elim (to_int python.convert (get_or "container_size" (int (pos 0)) entity)) [
        | err raised ↦ unless_empty inventory
        | ok size ↦ if ltb_ℤ (pos 0) size then some inventory else unless_empty inventory
      ]

  unfoldable pub inventory_of_entity : ItemNbt → Option (List ItemNbt)
  inventory_of_entity entity = elim (get "is_container" entity) [
    | bool true ↦ some (entity_entries entity)
    | bool false ↦ none
    | _ ↦ undeclared_inventory entity (entity_entries entity)
  ]

  unfoldable pub container_inventory : ItemNbt → Option (List ItemNbt)
  container_inventory snapshot = elim (as_dict (get "block_entity" snapshot)) [
    | none ↦ none
    | some entity ↦ inventory_of_entity entity
  ]

  unfoldable pub container_capacity : ItemNbt → List ItemNbt → ℤ
  container_capacity snapshot inventory =
      let size = pos (length inventory) in
      elim (as_dict (get "block_entity" snapshot)) [
        | none ↦ size
        | some entity ↦ elim (to_int python.convert (get_or "container_size" (int size) entity)) [
          | err raised ↦ size
          | ok capacity ↦ if leb_ℤ (pos 0) capacity then capacity else size
        ]
      ]

  unfoldable pub status_text : ItemNbt → String
  status_text snapshot =
      let status = get "block_entity_status" snapshot in
      if to_bool python.convert status
      then to_str python.convert status
      else if to_bool python.convert (get "block_entity" snapshot)
      then "captured"
      else "no_actor"

  unfoldable pub is_empty_mapping : ItemNbt → Bool
  is_empty_mapping item =
      is_true (get "empty" item)
      || contains ("air" ∷ "minecraft:air" ∷ [])
          (python.casefold (text_or_empty (get_chain ("Name" ∷ "name" ∷ "id" ∷ []) null item)))
      || is_no_count (get_chain ("Count" ∷ "count" ∷ []) null item)

  unfoldable pub is_empty_item : Value → Bool
  is_empty_item null = true
  is_empty_item (dict end) = true
  is_empty_item v = elim (as_dict v) [ none ↦ false | some item ↦ is_empty_mapping item ]

  unfoldable pub occupied_inventory : List ItemNbt → List ItemNbt
  occupied_inventory [] = []
  occupied_inventory (slot ∷ slots) =
      let rest = occupied_inventory slots in
      if is_empty_item (get "item" slot) then rest else slot ∷ rest

  -- The text of an integer that is no Boolean, and `?` of anything else.
  unfoldable pub number_text : Value → String
  number_text v = elim (as_int v) [ none ↦ "?" | some n ↦ to_str python.convert (int n) ]

  unfoldable pub custom_name_of : ItemNbt → Option String
  custom_name_of item =
      let custom_name = get "CustomName" item in
      as_str (
        if to_bool python.convert custom_name
        then custom_name
        else display_name custom_name (get "tag" item))

  unfoldable pub describe_mapping : ItemNbt → String
  describe_mapping item =
      let item_id = label_id (get_chain ("Name" ∷ "name" ∷ "id" ∷ []) (str "unknown") item) in
      let amount = number_text (get_chain ("Count" ∷ "count" ∷ []) (int (pos 1)) item) in
      bounded_item_text (with_name (item_id ++ (" x" ++ amount)) (custom_name_of item))

  unfoldable pub item_description : Value → String
  item_description v = elim (as_dict v) [
    | none ↦ "<invalid item payload>"
    | some item ↦ describe_mapping item
  ]

  unfoldable pub item_preview : ItemNbt → String
  item_preview slot =
      "slot " ++ (number_text (get "slot" slot) ++ (": " ++ item_description (get "item" slot)))

  unfoldable pub is_bundle_name : String → Bool
  is_bundle_name name =
      let normalized = python.casefold name in
      if starts_with normalized "minecraft:"
      then (let rest = remove_prefix normalized "minecraft:" in
          rest == "bundle" || ends_with rest "_bundle")
      else false

  unfoldable pub is_storage_item : Value → Bool
  is_storage_item v =
      elim (storage_item_identifier v) [ none ↦ false | some name ↦ is_bundle_name name ]
      || elim (storage_item_tag v) [
        | none ↦ false
        | some inner ↦ has storage_item_contents_key inner
      ]
