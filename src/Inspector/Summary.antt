-- ===== src/Inspector/Summary.antt =====
-- `_storage_item_summary_lines` of the inspector: what the storage items of an inventory hold.
-- A value is a tree, so no item is within itself, and the code's test for an item that is being
-- walked already never holds.
pub mod Bounds
use Prim.Native.String.{◌++◌}
use mathlib.Core.List.{◌++◌ as append}
use endstone_blockdata_api.Base.{
  ℕ, zero, suc, ◌+◌, ◌-◌, String, Bool, true, false, Option, none, some, List, [], ◌∷◌, leb, ltb,
  ◌==◌, if◌then◌else◌, string_eq, nat_eq,
}
use endstone_blockdata_api.Base.Int.{ℤ, pos}
use endstone_blockdata_api.Base.Lists.{length, take}
use endstone_blockdata_api.Base.Dict
use endstone_blockdata_api.Nbt.{Value, int, ItemNbt, as_dict, as_list}
use endstone_blockdata_api.Nbt.Conversion.{to_str}
use endstone_blockdata_api.StorageItem.Reading.{storage_item_contents_key}
use endstone_blockdata_api.Inspector.Python.{Python, get, get_chain}
use endstone_blockdata_api.Inspector.Reading.{
  bounded_item_text, storage_item_identifier, is_storage_item, item_description, number_text,
}

-- `_serialized_storage_contents`: what became of an item's contents.
pub data StorageContents : Type 0 where
  unavailable invalid_tag invalid without_entries : StorageContents
  available : (contents : List Value) → StorageContents

unfoldable pub contents_state : List Value → StorageContents
contents_state [] = without_entries
contents_state (v ∷ vs) = available (v ∷ vs)

unfoldable pub contents_of_tag : ItemNbt → StorageContents
contents_of_tag tag = elim (Dict.lookup storage_item_contents_key tag) [
  | none ↦ unavailable
  | some v ↦ elim (as_list v) [ none ↦ invalid | some contents ↦ contents_state contents ]
]

unfoldable pub contents_of_mapping : ItemNbt → StorageContents
contents_of_mapping item = elim (Dict.lookup "tag" item) [
  | some v ↦ elim (as_dict v) [ none ↦ invalid_tag | some tag ↦ contents_of_tag tag ]
  | none ↦ elim (Dict.lookup "user_data" item) [
    | none ↦ unavailable
    | some v ↦ elim (as_dict v) [ none ↦ invalid_tag | some tag ↦ contents_of_tag tag ]
  ]
]

unfoldable pub serialized_storage_contents : Value → StorageContents
serialized_storage_contents v = elim (as_dict v) [
  | none ↦ invalid
  | some item ↦ contents_of_mapping item
]

-- `lines` and `line_limit_hit`
pub record Summary : Type 0 where
  pub lines : List String
  pub line_limit_hit : Bool

abbrev pub max_storage_summary_depth : ℕ
max_storage_summary_depth = 4

abbrev pub max_storage_summary_entries : ℕ
max_storage_summary_entries = 8

abbrev pub max_storage_summary_lines : ℕ
max_storage_summary_lines = 32

abbrev pub is_full : Summary → Bool
is_full summary = leb max_storage_summary_lines (length summary.lines)

abbrev pub hit_limit : Summary → Summary
hit_limit summary = record summary { line_limit_hit = true }

-- `emit`, which gives whether the line was taken
unfoldable pub emit : String → Summary → Bool × Summary
emit message summary =
    if is_full summary
    then (false, hit_limit summary)
    else (true, record summary { lines = append summary.lines (bounded_item_text message ∷ []) })

-- `lines[-1] = marker`
unfoldable pub set_last : String → List String → List String
set_last marker [] = []
set_last marker (line ∷ []) = marker ∷ []
set_last marker (line ∷ next ∷ lines) = line ∷ set_last marker (next ∷ lines)

module _ (python : Python) where
  abbrev decimal : ℕ → String
  decimal n = to_str python.convert (int (pos n))

  -- The body of the loop over the entries, on the entry as a mapping where it is one; `nested`
  -- walks a storage item.
  unfoldable pub show_entry :
      (Value → String → String → Summary → Summary)
      → String
      → ℕ
      → Value
      → Option ItemNbt
      → Summary
      → Summary
  show_entry nested indent index entry none summary =
      (emit (indent ++ ("  [" ++ (decimal index ++ "] <invalid item payload>"))) summary).1
  show_entry nested indent index entry (some mapping) summary =
      let slot = number_text python (get_chain ("Slot" ∷ "slot" ∷ []) (int (pos index)) mapping) in
      let shown =
        (emit (indent ++ ("  [" ++ (slot ++ ("] " ++ item_description python entry)))) summary).1 in
      if is_storage_item python entry then nested entry (indent ++ "    ") "Nested" shown else shown

  -- The loop over the entries. `walk` assigns `line_limit_hit` without `nonlocal`, so that the
  -- assignment before its `break` is to a name of its own: a full summary ends the loop, and its
  -- flag stays as it is.
  unfoldable pub show_entries :
      (Value → String → String → Summary → Summary) → String → ℕ → List Value → Summary → Summary
  show_entries nested indent index [] summary = summary
  show_entries nested indent index (entry ∷ entries) summary =
      if is_full summary
      then summary
      else show_entries nested indent (suc index) entries
          (show_entry nested indent index entry (as_dict entry) summary)

  -- The line that counts the entries past those that are shown.
  unfoldable pub show_hidden : String → ℕ → Summary → Summary
  show_hidden indent zero summary = summary
  show_hidden indent (suc n) summary =
      let noun = if n == 0 then "entry" else "entries" in
      (emit (indent ++ ("  ... and " ++ (decimal (suc n) ++ (" more serialized " ++ noun))))
        summary).1

  abbrev pub entries_text : ℕ → String
  entries_text n = " " ++ (decimal n ++ (" serialized entr" ++ (if n == 1 then "y" else "ies")))

  -- What `walk` does with the contents of an item, on the levels that are left below it.
  unfoldable pub walk_contents :
      ℕ
      → (Value → String → String → Summary → Summary)
      → String
      → String
      → List Value
      → Summary
      → Summary
  walk_contents levels nested indent heading contents summary =
      let (taken, counted) = emit (heading ++ entries_text (length contents)) summary in
      if taken
      then (if levels == 0
          then (emit
              (indent
                ++ ("  ... nested contents omitted at depth " ++ decimal max_storage_summary_depth))
              counted).1
          else show_hidden indent (length contents - max_storage_summary_entries)
              (show_entries nested indent 0 (take max_storage_summary_entries contents) counted))
      else counted

  -- The line on the state of an item's contents, or what they hold.
  unfoldable pub show_state :
      ℕ
      → (Value → String → String → Summary → Summary)
      → String
      → String
      → StorageContents
      → Summary
      → Summary
  show_state levels nested indent heading unavailable summary =
      (emit (heading ++ " contents unavailable (live capture did not serialize them)") summary).1
  show_state levels nested indent heading invalid_tag summary =
      (emit (heading ++ " contents unavailable (item tag is not a compound)") summary).1
  show_state levels nested indent heading invalid summary =
      (emit (heading ++ " contents unavailable (serialized value is not a list)") summary).1
  show_state levels nested indent heading without_entries summary =
      (emit (heading ++ " contents empty") summary).1
  show_state levels nested indent heading (available contents) summary =
      walk_contents levels nested indent heading contents summary

  unfoldable pub walk_item :
      ℕ
      → (Value → String → String → Summary → Summary)
      → Value
      → String
      → String
      → Summary
      → Summary
  walk_item levels nested item indent context summary =
      let identifier = elim (storage_item_identifier item) as (λ _. String) [
        | none ↦ "unknown storage item"
        | some name ↦ name
      ] in
      show_state levels nested indent (indent ++ (context ++ (" " ++ (identifier ++ ":"))))
        (serialized_storage_contents item) summary

  -- `walk`, on the levels that are left: four at the first call.
  unfoldable pub walk : ℕ → Value → String → String → Summary → Summary
  walk zero item indent context summary =
      if is_storage_item python item
      then walk_item 0 (λ entry deeper nested s. s) item indent context summary
      else summary
  walk (suc levels) item indent context summary =
      if is_storage_item python item
      then walk_item (suc levels) (walk levels) item indent context summary
      else summary

  unfoldable pub show_parent : ItemNbt → Summary → Summary
  show_parent parent summary =
      let item = get "item" parent in
      if is_storage_item python item
      then walk max_storage_summary_depth item "  "
          ("Container slot " ++ number_text python (get "slot" parent)) summary
      else summary

  -- The loop over the inventory, which ends once the limit is hit.
  unfoldable pub show_parents : List ItemNbt → Summary → Summary
  show_parents [] summary = summary
  show_parents (parent ∷ parents) summary =
      let shown = show_parent parent summary in
      if shown.line_limit_hit then shown else show_parents parents shown

  abbrev pub truncation_marker : String
  truncation_marker =
      "  ... storage contents summary truncated at "
      ++ (decimal max_storage_summary_lines ++ " lines")

  unfoldable pub finish_summary : Summary → List String
  finish_summary summary =
      if summary.line_limit_hit
      then (if is_full summary
          then set_last truncation_marker summary.lines
          else append summary.lines (truncation_marker ∷ []))
      else summary.lines

  unfoldable pub storage_item_summary_lines : List ItemNbt → List String
  storage_item_summary_lines inventory =
      finish_summary (show_parents inventory (record { lines = []; line_limit_hit = false }))
