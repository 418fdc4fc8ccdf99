-- ===== src/Inspector/Pages.antt =====
-- The pages of the inspector's menu: their buttons, their controls and where they lead.
use Prim.Native.String.{◌++◌, count}
use mathlib.Core.List.{◌++◌ as append}
use endstone_blockdata_api.Base.{
  String, Bool, true, false, Option, none, some, List, [], ◌∷◌, map, ltb, if◌then◌else◌,
}
use endstone_blockdata_api.Base.Int.{ℤ, pos}
use endstone_blockdata_api.Base.Texts.{join, take_chars}

-- One constructor per `_show_…` method, with its arguments.
pub data Page : Type 0 where
  main_menu locate_form inspect_menu inspect_at_form inventory_menu : Page
  item_add_form : (explicit : Bool) → Page
  item_remove_form : (explicit : Bool) → Page
  audit_menu audit_at_form state_menu : Page
  state_set_form : (explicit : Bool) → Page
  write_confirmation : (title : String) (args : List String) (back : Page) → Page

-- What a button does: show a page, dispatch a command and then show a page, or nothing.
pub data PageAction : Type 0 where
  show : (page : Page) → PageAction
  dispatch_and_reopen : (args : List String) (reopen : Page) → PageAction
  help_then_main : PageAction
  close : PageAction

-- The buttons of the action pages.
abbrev main_actions : List (String × PageAction)
main_actions =
    ("Locate Containers", show locate_form)
    ∷ ("Inspect / Select Target", show inspect_menu)
    ∷ ("Container Inventory", show inventory_menu)
    ∷ ("Audit Changes", show audit_menu)
    ∷ ("Block State", show state_menu)
    ∷ ("Command Help", help_then_main)
    ∷ ("Close", close)
    ∷ []

abbrev inspect_actions : List (String × PageAction)
inspect_actions =
    ("Inspect Active Target", dispatch_and_reopen ("inspect" ∷ []) inspect_menu)
    ∷ ("Inspect Coordinates", show inspect_at_form)
    ∷ ("Back", show main_menu)
    ∷ []

abbrev inventory_actions : List (String × PageAction)
inventory_actions =
    ("Add Item to Active Target", show (item_add_form false))
    ∷ ("Add Item at Coordinates", show (item_add_form true))
    ∷ ("Remove Item from Active Target", show (item_remove_form false))
    ∷ ("Remove Item at Coordinates", show (item_remove_form true))
    ∷ ("Back", show main_menu)
    ∷ []

abbrev audit_actions : List (String × PageAction)
audit_actions =
    ("Start Audit on Active Target", dispatch_and_reopen ("audit" ∷ "start" ∷ []) audit_menu)
    ∷ ("Stop Audit on Active Target", dispatch_and_reopen ("audit" ∷ "stop" ∷ []) audit_menu)
    ∷ ("Start / Stop at Coordinates", show audit_at_form)
    ∷ ("Audit History", dispatch_and_reopen ("audit" ∷ "history" ∷ []) audit_menu)
    ∷ ("Back", show main_menu)
    ∷ []

abbrev state_actions : List (String × PageAction)
state_actions =
    ("Set State on Active Target", show (state_set_form false))
    ∷ ("Set State at Coordinates", show (state_set_form true))
    ∷ ("Back", show main_menu)
    ∷ []

abbrev confirmation_actions : List String → Page → List (String × PageAction)
confirmation_actions args back =
    ("Confirm Write", dispatch_and_reopen args back) ∷ ("Cancel", show back) ∷ []

-- A modal page has no buttons.
unfoldable pub page_actions : Page → List (String × PageAction)
page_actions main_menu = main_actions
page_actions inspect_menu = inspect_actions
page_actions inventory_menu = inventory_actions
page_actions audit_menu = audit_actions
page_actions state_menu = state_actions
page_actions (write_confirmation title args back) = confirmation_actions args back
page_actions _ = []

-- The page that closing a form leads to; the main menu has none.
unfoldable pub page_back : Page → Option Page
page_back main_menu = none
page_back locate_form = some main_menu
page_back inspect_menu = some main_menu
page_back inspect_at_form = some inspect_menu
page_back inventory_menu = some main_menu
page_back (item_add_form explicit) = some inventory_menu
page_back (item_remove_form explicit) = some inventory_menu
page_back audit_menu = some main_menu
page_back audit_at_form = some audit_menu
page_back state_menu = some main_menu
page_back (state_set_form explicit) = some state_menu
page_back (write_confirmation title args back) = some back

abbrev at_coordinates : String → Bool → String
at_coordinates title explicit = if explicit then title ++ " at Coordinates" else title

unfoldable pub page_title : Page → String
page_title main_menu = "BlockData Inspector"
page_title locate_form = "Locate Containers"
page_title inspect_menu = "Inspect / Select Target"
page_title inspect_at_form = "Inspect Coordinates"
page_title inventory_menu = "Container Inventory"
page_title (item_add_form explicit) = at_coordinates "Add Item" explicit
page_title (item_remove_form explicit) = at_coordinates "Remove Item" explicit
page_title audit_menu = "Audit Changes"
page_title audit_at_form = "Audit Coordinates"
page_title state_menu = "Block State"
page_title (state_set_form explicit) = at_coordinates "Set Block State" explicit
page_title (write_confirmation title args back) = title

-- The preview of a command that a confirmation shows, cut where it is long.
unfoldable pub command_preview : List String → String
command_preview args =
    let preview = "/bd " ++ join " " args in
    if ltb 480 (count preview) then take_chars 450 preview ++ "... [truncated]" else preview

-- The controls of a modal page, and how each value of a response is checked.
pub data Control : Type 0 where
  text_input : (label : String) (placeholder : String) (default : Option String) → Control
  slider : (label : String) (low high step default : ℤ) → Control
  dropdown : (label : String) (options : List String) (index : ℤ) → Control

pub data Validator : Type 0 where
  is_form_text is_form_number is_form_index : Validator

-- `_coordinate_controls`, with the coordinates of the player where there are some
unfoldable pub coordinate_controls : Option (String × String × String) → List Control
coordinate_controls none =
    text_input "X" "Absolute block X" none
    ∷ text_input "Y" "Absolute block Y" none
    ∷ text_input "Z" "Absolute block Z" none
    ∷ []
coordinate_controls (some (x, y, z)) =
    text_input "X" "Absolute block X" (some x)
    ∷ text_input "Y" "Absolute block Y" (some y)
    ∷ text_input "Z" "Absolute block Z" (some z)
    ∷ []

abbrev slot_control : Control
slot_control = text_input "Slot" "Non-negative slot number" none

abbrev item_controls : List Control
item_controls =
    slot_control
    ∷ text_input "Item ID" "minecraft:diamond" none
    ∷ text_input "Count" "Positive count" (some "1")
    ∷ text_input "NBT JSON (optional)" "{\"display\":{\"Name\":\"Example\"}}" none
    ∷ []

abbrev state_controls : List Control
state_controls =
    text_input "Property" "minecraft:cardinal_direction" none
    ∷ text_input "Value" "north, true, or an integer" none
    ∷ []

abbrev Defaults : Type 0
Defaults = Option (String × String × String)

abbrev item_add_controls : Defaults → Bool → List Control
item_add_controls defaults true = append (coordinate_controls defaults) item_controls
item_add_controls defaults false = item_controls

abbrev item_remove_controls : Defaults → Bool → List Control
item_remove_controls defaults true = append (coordinate_controls defaults) (slot_control ∷ [])
item_remove_controls defaults false = slot_control ∷ []

abbrev state_set_controls : Defaults → Bool → List Control
state_set_controls defaults true = append state_controls (coordinate_controls defaults)
state_set_controls defaults false = state_controls

abbrev audit_controls : Defaults → List Control
audit_controls defaults =
    dropdown "Operation" ("Start" ∷ "Stop" ∷ []) (pos 0) ∷ coordinate_controls defaults

abbrev locate_controls : List Control
locate_controls = slider "Search radius" (pos 0) (pos 12) (pos 1) (pos 5) ∷ []

unfoldable pub page_controls : Defaults → Page → List Control
page_controls defaults locate_form = locate_controls
page_controls defaults inspect_at_form = coordinate_controls defaults
page_controls defaults (item_add_form explicit) = item_add_controls defaults explicit
page_controls defaults (item_remove_form explicit) = item_remove_controls defaults explicit
page_controls defaults audit_at_form = audit_controls defaults
page_controls defaults (state_set_form explicit) = state_set_controls defaults explicit
page_controls defaults _ = []

-- The validators of the pages' responses, one for each control.
unfoldable pub validator_of : Control → Validator
validator_of (text_input label placeholder default) = is_form_text
validator_of (slider label low high step default) = is_form_number
validator_of (dropdown label options index) = is_form_index

unfoldable pub page_validators : Page → List Validator
page_validators page = map validator_of (page_controls none page)
