-- ===== src/Inspector/Shelves.antt =====
-- `_shelf_diagnostic_lines` of the inspector: what it says of a shelf or a chiseled bookshelf.
use Prim.Native.Char.{code}
use Prim.Native.String.{◌++◌, find, len}
use endstone_blockdata_api.Base.{
  String, Bool, ◌||◌, Option, none, some, List, [], ◌∷◌, map, leb, ◌==◌, contains, if◌then◌else◌,
  string_eq, nat_eq,
}
use endstone_blockdata_api.Base.Int.{ℤ, pos, leb_ℤ, int_eq}
use endstone_blockdata_api.Base.Sort.{sort}
use endstone_blockdata_api.Base.Texts.{texts, join, has_char}
use endstone_blockdata_api.Nbt.{Value, int, ItemNbt, as_dict, as_int}
use endstone_blockdata_api.Nbt.Equal.{value_eq}
use endstone_blockdata_api.StorageItem.Reading.{ends_with}
use endstone_blockdata_api.Inspector.Python.{Python, get}
use endstone_blockdata_api.Inspector.Reading.{
  status_text, container_inventory, is_empty_item, text_or_empty,
}
use endstone_blockdata_api.Inspector.Bridge.{number}
use endstone_blockdata_api.Inspector.Found.{inventory_or_empty}

-- `text.rsplit(":", 1)[-1]`
unfoldable pub after_last_colon : String → String
after_last_colon String.[] = ""
after_last_colon (String.◌∷◌ c rest) =
    let last = after_last_colon rest in
    if has_char 58 rest then last else if code c == 58 then rest else String.◌∷◌ c rest

-- `part in text`
unfoldable pub has_part : String → String → Bool
has_part part text = leb (find text part) (len text)

-- A mapping, or an empty one where the value is no mapping.
unfoldable pub dict_or_none : Value → ItemNbt
dict_or_none v = elim (as_dict v) [ none ↦ [] | some d ↦ d ]

-- What kind of shelf a block is.
pub data ShelfGuess : Type 0 where
  chiseled shelf no_shelf : ShelfGuess

unfoldable pub is_chiseled : String → String → Value → Bool
is_chiseled block_name actor actor_code =
    block_name == "chiseled_bookshelf"
    || has_part "chiseled_bookshelf" actor
    || ends_with actor "block_actor_51"
    || value_eq actor_code (int (pos 51))

unfoldable pub is_plain_shelf : String → String → Value → Bool
is_plain_shelf block_name actor actor_code =
    block_name == "shelf"
    || ends_with block_name "_shelf"
    || contains ("shelf" ∷ "minecraft:shelf" ∷ []) actor
    || ends_with actor "block_actor_59"
    || value_eq actor_code (int (pos 59))

unfoldable pub guess_shelf : String → String → Value → ShelfGuess
guess_shelf block_name actor actor_code =
    if is_chiseled block_name actor actor_code
    then chiseled
    else if is_plain_shelf block_name actor actor_code
    then shelf
    else no_shelf

-- `value` of `container_size` where it is a size
unfoldable pub live_capacity : ItemNbt → Option ℤ
live_capacity entity = elim (as_int (get "container_size" entity)) [
  | none ↦ none
  | some size ↦ if leb_ℤ (pos 0) size then some size else none
]

module _ (python : Python) where
  unfoldable pub diagnostic_slots : List ItemNbt → List ℤ
  diagnostic_slots [] = []
  diagnostic_slots (entry ∷ entries) =
      let rest = diagnostic_slots entries in
      elim (as_int (get "slot" entry)) [
        | none ↦ rest
        | some slot ↦ if is_empty_item python (get "item" entry) then rest else slot ∷ rest
      ]

  unfoldable pub capacity_text : Option ℤ → ℤ → String
  capacity_text none expected = "unavailable"
  capacity_text (some live) expected =
      if live == expected
      then number python live
      else number python live ++ " (MISMATCH; expected adapter to fail closed)"

  unfoldable pub or_none_text : String → String
  or_none_text text = if text == "" then "none" else text

  unfoldable pub or_unavailable : String → String
  or_unavailable text = if text == "" then "unavailable" else text

  -- The five lines, by what differs between the two kinds.
  unfoldable pub diagnostic_lines :
      ItemNbt → ItemNbt → String → String → ℤ → ℤ → String → String → List String
  diagnostic_lines snapshot entity actor expected_actor capacity last_slot restrictions behavior =
      let inventory = inventory_or_empty (container_inventory python snapshot) in
      let occupied = join ", " (map (number python) (sort leb_ℤ (diagnostic_slots inventory))) in
      "Shelf / Chiseled Bookshelf Diagnostics:"
      ∷ texts (
          "  Actor: "
          ∷ or_unavailable actor
          ∷ "; expected "
          ∷ expected_actor
          ∷ "; status="
          ∷ status_text python snapshot
          ∷ [])
      ∷ texts (
          "  Capacity: live "
          ∷ capacity_text (live_capacity entity) capacity
          ∷ "; expected "
          ∷ number python capacity
          ∷ "; valid slots 0-"
          ∷ number python last_slot
          ∷ "; occupied slots: "
          ∷ or_none_text occupied
          ∷ [])
      ∷ texts ("  Restrictions: " ∷ restrictions ∷ "." ∷ [])
      ∷ texts ("  Behavior: " ∷ behavior ∷ [])
      ∷ []

  unfoldable pub lines_of_guess : ShelfGuess → ItemNbt → ItemNbt → String → List String
  lines_of_guess no_shelf snapshot entity actor = []
  lines_of_guess chiseled snapshot entity actor =
      diagnostic_lines snapshot entity actor "BlockActorType 51 / ChiseledBookshelf" (pos 6) (pos 5)
        "book, writable_book, written_book, or enchanted_book only; one item per slot"
        "Comparator behavior tracks the last interacted book slot."
  lines_of_guess shelf snapshot entity actor =
      diagnostic_lines snapshot entity actor "BlockActorType 59 / Shelf" (pos 3) (pos 2)
        "general item stacks; item and container maximum-stack limits apply"
        "Displayed contents and powered hotbar swaps are actor-managed."

  unfoldable pub shelf_diagnostic_lines : ItemNbt → List String
  shelf_diagnostic_lines snapshot =
      let entity = dict_or_none (get "block_entity" snapshot) in
      let nbt = dict_or_none (get "nbt" entity) in
      let block_type = python.casefold (text_or_empty python (get "type" snapshot)) in
      let actor = text_or_empty python (get "type" entity) in
      lines_of_guess
        (guess_shelf (after_last_colon block_type) (python.casefold actor)
          (get "_endstone_actor_type" nbt))
        snapshot entity actor
