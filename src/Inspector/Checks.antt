-- ===== src/Inspector/Checks.antt =====
-- The checks of the fields of a response to a modal page of the inspector.
use Prim.Native.String.{◌++◌}
use endstone_blockdata_api.Base.{
  String, Bool, true, false, not, Option, none, some, List, [], ◌∷◌, ◌==◌, if◌then◌else◌, ◌⊎◌, inl,
  inr, Result, ok, err, string_eq, nat_eq,
}
use endstone_blockdata_api.Base.Int.{ℤ, pos, ltb_ℤ, int_eq}
use endstone_blockdata_api.Base.Texts.{texts, join}
use endstone_blockdata_api.Nbt.{Value, int, as_dict, as_str}
use endstone_blockdata_api.Nbt.Conversion.{to_str}
use endstone_blockdata_api.Inspector.Python.{Python}
use endstone_blockdata_api.Inspector.Pages.{Page}

-- What follows a response: a message and the same page again, or a command and a page, or a page.
pub data FormStep : Type 0 where
  reject : (message : String) → FormStep
  run : (args : List String) (reopen : Page) → FormStep
  go_to : (page : Page) → FormStep

-- The labels of the fields that are empty.
unfoldable pub missing_fields : List (String × String) → List String
missing_fields [] = []
missing_fields ((label, value) ∷ fields) =
    let rest = missing_fields fields in if value == "" then label ∷ rest else rest

-- `_require_form_fields`: the message, where a field is missing
unfoldable pub require_form_fields : List (String × String) → Option String
require_form_fields fields = elim (missing_fields fields) [
  | [] ↦ none
  | label ∷ labels ↦ some ("Required form field(s) missing: " ++ join ", " (label ∷ labels))
]

-- The checks of a response run in order, and the first message ends them.
unfoldable pub first_problem : List (Option String) → Option String
first_problem [] = none
first_problem (none ∷ checks) = first_problem checks
first_problem (some message ∷ checks) = some message

unfoldable pub unless_problem : Option String → FormStep → FormStep
unless_problem none step = step
unless_problem (some message) step = reject message

-- A text of a validated response.
unfoldable pub text_of : Value → String
text_of v = elim (as_str v) [ none ↦ "" | some text ↦ text ]

abbrev pub coordinate_fields : String → String → String → List (String × String)
coordinate_fields x y z = ("X", x) ∷ ("Y", y) ∷ ("Z", z) ∷ []

module _ (python : Python) where
  abbrev pub stripped : Value → String
  stripped v = python.strip (text_of v)

  unfoldable pub valid_integer : Option ℤ → Result ℤ → Bool
  valid_integer minimum (err _) = false
  valid_integer none (ok parsed) = true
  valid_integer (some least) (ok parsed) = not (ltb_ℤ parsed least)

  unfoldable pub invalid_fields : Option ℤ → List (String × String) → List String
  invalid_fields minimum [] = []
  invalid_fields minimum ((label, value) ∷ fields) =
      let rest = invalid_fields minimum fields in
      if valid_integer minimum (python.convert.int_of_text value) then rest else label ∷ rest

  unfoldable pub requirement_text : Option ℤ → String
  requirement_text none = "integer"
  requirement_text (some least) = "integer at least " ++ to_str python.convert (int least)

  -- `_require_form_integers`
  unfoldable pub require_form_integers : Option ℤ → List (String × String) → Option String
  require_form_integers minimum fields = elim (invalid_fields minimum fields) [
    | [] ↦ none
    | label ∷ labels ↦ some (
        texts (
          "Form field(s) "
          ∷ join ", " (label ∷ labels)
          ∷ " must be an "
          ∷ requirement_text minimum
          ∷ "."
          ∷ []))
  ]

  -- The count and the NBT of an added item are optional.
  unfoldable pub check_count : String → Option String
  check_count count =
      if count == "" then none else require_form_integers (some (pos 1)) (("Count", count) ∷ [])

  unfoldable pub is_json_object : String ⊎ Value → Bool
  is_json_object (inl message) = false
  is_json_object (inr decoded) = elim (as_dict decoded) [ none ↦ false | some d ↦ true ]

  unfoldable pub check_nbt : String → Option String
  check_nbt nbt =
      if nbt == ""
      then none
      else if is_json_object (python.loads nbt)
      then none
      else some "NBT JSON must be a valid JSON object."

  -- The count is written where there is an NBT, and is 1 where none is given.
  unfoldable pub optional_args : String → String → List String
  optional_args count nbt =
      if nbt == ""
      then (if count == "" then [] else count ∷ [])
      else (if count == "" then "1" else count) ∷ nbt ∷ []
