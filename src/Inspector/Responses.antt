-- ===== src/Inspector/Responses.antt =====
-- What the modal pages of the inspector do with the values of a response.
use mathlib.Core.List.{◌++◌ as append}
use endstone_blockdata_api.Base.{
  String, Bool, true, false, ◌&&◌, Option, none, some, List, [], ◌∷◌, ◌==◌, if◌then◌else◌, ◌⊎◌, inl,
  inr, string_eq, nat_eq,
}
use endstone_blockdata_api.Base.Int.{ℤ, pos, leb_ℤ, int_eq}
use endstone_blockdata_api.Nbt.{Value, int, str, opaque, as_list, as_int}
use endstone_blockdata_api.Nbt.Conversion.{to_str}
use endstone_blockdata_api.Inspector.Python.{Python}
use endstone_blockdata_api.Inspector.Pages.{
  Page, main_menu, locate_form, inspect_menu, inspect_at_form, inventory_menu, item_add_form,
  item_remove_form, audit_menu, audit_at_form, state_menu, state_set_form, write_confirmation,
  Validator, is_form_text, is_form_number, is_form_index, page_validators,
}
use endstone_blockdata_api.Inspector.Checks.{
  FormStep, reject, run, go_to, require_form_fields, first_problem, unless_problem,
  coordinate_fields, stripped, require_form_integers, check_count, check_nbt, optional_args,
}

module _ (python : Python) where
  unfoldable pub is_valid : Validator → Value → Bool
  is_valid is_form_text (str text) = true
  is_valid is_form_number (int n) = true
  is_valid is_form_number (opaque text) = python.is_finite text
  is_valid is_form_index (int n) = true
  is_valid validator value = false

  -- As many values as validators, each of which passes.
  unfoldable pub all_valid : List Validator → List Value → Bool
  all_valid [] [] = true
  all_valid (validator ∷ validators) (value ∷ values) =
      is_valid validator value && all_valid validators values
  all_valid validators values = false

  unfoldable pub item_added : List String → String → String → String → String → FormStep
  item_added start slot item_id count nbt = go_to (
      write_confirmation "Confirm Item Add"
        (append start (slot ∷ item_id ∷ optional_args python count nbt)) inventory_menu)

  unfoldable pub read_radius : Value → Option ℤ
  read_radius (int n) = some n
  read_radius (opaque text) = python.whole_number text
  read_radius v = none

  unfoldable pub locate_step : Option ℤ → FormStep
  locate_step none = reject "Radius must be a whole number from 0 to 12."
  locate_step (some radius) =
      if leb_ℤ (pos 0) radius && leb_ℤ radius (pos 12)
      then run ("locate" ∷ to_str python.convert (int radius) ∷ []) main_menu
      else reject "Radius must be a whole number from 0 to 12."

  -- The name of an operation by its index
  unfoldable pub audit_operation : Option ℤ → Option String
  audit_operation none = none
  audit_operation (some index) =
      if index == pos 0 then some "start" else if index == pos 1 then some "stop" else none

  unfoldable pub audit_step : Option String → List (String × String) → List String → FormStep
  audit_step none fields coordinates = reject "The audit operation selection was invalid."
  audit_step (some operation) fields coordinates =
      unless_problem
        (first_problem (require_form_fields fields ∷ require_form_integers python none fields ∷ []))
        (run ("audit" ∷ operation ∷ coordinates) audit_menu)

  abbrev invalid_response : FormStep
  invalid_response = reject "The BlockData form returned an invalid response."

  -- `use_values` of each modal page, on values that the validators passed.
  unfoldable pub locate_values : List Value → FormStep
  locate_values (radius ∷ []) = locate_step (read_radius radius)
  locate_values values = invalid_response

  -- Of `_show_inspect_at_form`
  unfoldable pub inspect_values : List Value → FormStep
  inspect_values (x ∷ y ∷ z ∷ []) =
      let fields = coordinate_fields (stripped python x) (stripped python y) (stripped python z) in
      unless_problem
        (first_problem (require_form_fields fields ∷ require_form_integers python none fields ∷ []))
        (run ("inspect" ∷ stripped python x ∷ stripped python y ∷ stripped python z ∷ [])
          inspect_menu)
  inspect_values values = invalid_response

  -- Of `_show_item_add_form`
  unfoldable pub item_add_values : Bool → List Value → FormStep
  item_add_values true (x ∷ y ∷ z ∷ slot ∷ item_id ∷ count ∷ nbt ∷ []) =
      let fields = coordinate_fields (stripped python x) (stripped python y) (stripped python z) in
      unless_problem
        (first_problem (
          require_form_fields (
            append fields
              (("Slot", stripped python slot) ∷ ("Item ID", stripped python item_id) ∷ []))
          ∷ require_form_integers python none fields
          ∷ require_form_integers python (some (pos 0)) (("Slot", stripped python slot) ∷ [])
          ∷ check_count python (stripped python count)
          ∷ check_nbt python (stripped python nbt)
          ∷ []))
        (item_added
          ("item" ∷ "add" ∷ "at" ∷ stripped python x ∷ stripped python y ∷ stripped python z ∷ [])
          (stripped python slot) (stripped python item_id) (stripped python count)
          (stripped python nbt))
  item_add_values false (slot ∷ item_id ∷ count ∷ nbt ∷ []) =
      unless_problem
        (first_problem (
          require_form_fields
            (("Slot", stripped python slot) ∷ ("Item ID", stripped python item_id) ∷ [])
          ∷ require_form_integers python (some (pos 0)) (("Slot", stripped python slot) ∷ [])
          ∷ check_count python (stripped python count)
          ∷ check_nbt python (stripped python nbt)
          ∷ []))
        (item_added ("item" ∷ "add" ∷ []) (stripped python slot) (stripped python item_id)
          (stripped python count) (stripped python nbt))
  item_add_values explicit values = invalid_response

  -- Of `_show_item_remove_form`
  unfoldable pub item_remove_values : Bool → List Value → FormStep
  item_remove_values true (x ∷ y ∷ z ∷ slot ∷ []) =
      let fields = coordinate_fields (stripped python x) (stripped python y) (stripped python z) in
      unless_problem
        (first_problem (
          require_form_fields (append fields (("Slot", stripped python slot) ∷ []))
          ∷ require_form_integers python none fields
          ∷ require_form_integers python (some (pos 0)) (("Slot", stripped python slot) ∷ [])
          ∷ []))
        (go_to (
          write_confirmation "Confirm Item Removal"
            ("item"
              ∷ "remove"
              ∷ "at"
              ∷ stripped python x
              ∷ stripped python y
              ∷ stripped python z
              ∷ stripped python slot
              ∷ [])
            inventory_menu))
  item_remove_values false (slot ∷ []) =
      unless_problem
        (first_problem (
          require_form_fields (("Slot", stripped python slot) ∷ [])
          ∷ require_form_integers python (some (pos 0)) (("Slot", stripped python slot) ∷ [])
          ∷ []))
        (go_to (
          write_confirmation "Confirm Item Removal" ("item" ∷ "remove" ∷ stripped python slot ∷ [])
            inventory_menu))
  item_remove_values explicit values = invalid_response

  -- Of `_show_audit_at_form`
  unfoldable pub audit_values : List Value → FormStep
  audit_values (operation ∷ x ∷ y ∷ z ∷ []) =
      audit_step (audit_operation (as_int operation))
        (coordinate_fields (stripped python x) (stripped python y) (stripped python z))
        (stripped python x ∷ stripped python y ∷ stripped python z ∷ [])
  audit_values values = invalid_response

  -- Of `_show_state_set_form`
  unfoldable pub state_set_values : Bool → List Value → FormStep
  state_set_values true (name ∷ value ∷ x ∷ y ∷ z ∷ []) =
      let fields = coordinate_fields (stripped python x) (stripped python y) (stripped python z) in
      unless_problem
        (first_problem (
          require_form_fields
            (("Property", stripped python name) ∷ ("Value", stripped python value) ∷ fields)
          ∷ require_form_integers python none fields
          ∷ []))
        (go_to (
          write_confirmation "Confirm Block State Write"
            ("state"
              ∷ "set"
              ∷ stripped python name
              ∷ stripped python value
              ∷ stripped python x
              ∷ stripped python y
              ∷ stripped python z
              ∷ [])
            state_menu))
  state_set_values false (name ∷ value ∷ []) =
      unless_problem
        (require_form_fields
          (("Property", stripped python name) ∷ ("Value", stripped python value) ∷ []))
        (go_to (
          write_confirmation "Confirm Block State Write"
            ("state" ∷ "set" ∷ stripped python name ∷ stripped python value ∷ []) state_menu))
  state_set_values explicit values = invalid_response

  unfoldable pub use_values : Page → List Value → FormStep
  use_values locate_form values = locate_values values
  use_values inspect_at_form values = inspect_values values
  use_values (item_add_form explicit) values = item_add_values explicit values
  use_values (item_remove_form explicit) values = item_remove_values explicit values
  use_values audit_at_form values = audit_values values
  use_values (state_set_form explicit) values = state_set_values explicit values
  use_values page values = invalid_response

  -- `decode` of `_show_modal_page`.
  unfoldable pub decode_values : Page → List Value → FormStep
  decode_values page values =
      if all_valid (page_validators page) values
      then use_values page values
      else reject "The BlockData form returned an invalid response."

  unfoldable pub decode : Page → String ⊎ Value → FormStep
  decode page (inl message) = reject "The BlockData form returned an invalid response."
  decode page (inr response) = elim (as_list response) [
    | none ↦ reject "The BlockData form returned an invalid response."
    | some values ↦ decode_values page values
  ]
