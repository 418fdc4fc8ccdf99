-- ===== src/Inspector/Dispatch.antt =====
-- The inspector's commands, and what its forms do with what a player submits.
use Prim.Native.String.{◌++◌}
use endstone_blockdata_api.Base.{
  String, Bool, true, false, Option, none, some, List, [], ◌∷◌, ◌==◌, contains, if◌then◌else◌,
  string_eq,
}
use endstone_blockdata_api.Base.Int.{ℤ, pos, negsuc}
use endstone_blockdata_api.Base.Lists.{get_elem?}
use endstone_blockdata_api.Nbt.{Value, as_int}
use endstone_blockdata_api.Inspector.Pages.{
  Page, main_menu, PageAction, show, dispatch_and_reopen, help_then_main, close, page_actions,
  page_back,
}
use endstone_blockdata_api.Inspector.Session.{Server, Sender, SentForm}
use endstone_blockdata_api.Inspector.Command.{Command, ◌>>◌, give, send_message, send_all, refuse}
use endstone_blockdata_api.Inspector.Forms.{show_page, to_the_end, run_form_action, close_form}
use endstone_blockdata_api.Inspector.Checks.{FormStep, reject, run, go_to}
use endstone_blockdata_api.Inspector.Responses.{decode}
use endstone_blockdata_api.Inspector.Items.{handle_item}
use endstone_blockdata_api.Inspector.States.{handle_state}
use endstone_blockdata_api.Inspector.Audits.{handle_audit}
use endstone_blockdata_api.Inspector.Locate.{handle_locate}
use endstone_blockdata_api.Inspector.Inspect.{handle_inspect}

unfoldable pub help_lines : String → List String
help_lines version =
    "/bd menu - Open the interactive BlockData menu"
    ∷ ("§e=== BlockData Inspector Test Plugin (v" ++ (version ++ ") ==="))
    ∷ "§a/bd locate [radius] §7- Find and select the nearest container"
    ∷ "§a/bd inspect [x y z] §7- Inspect/select a live container target"
    ∷ "§a/bd item add <slot> <id> [count] [nbt] §7- Add at selected target"
    ∷ "§a/bd item add at <x> <y> <z> <slot> <id> [count] [nbt] §7- Add by position"
    ∷ "§a/bd item remove <slot> §7- Remove at selected target"
    ∷ "§a/bd item remove at <x> <y> <z> <slot> §7- Remove by position"
    ∷ "§a/bd audit <start|stop> [x y z] §7- Record live diffs"
    ∷ "§a/bd audit history §7- Show recent audit sessions"
    ∷ "§a/bd state set <property> <value> [x y z] §7- Mutate live block state"
    ∷ []

-- What a player submits: a button's number, as the value that arrives, or the text of a response.
pub data Submission : Type 0 where
  selection : (index : Value) → Submission
  response : (text : String) → Submission

module _ {ℓ} {World : Type ℓ} (server : Server World) where
  unfoldable pub send_help : Command World (Unit {0})
  send_help = send_all (help_lines server.version)

  -- The menu, for a sender with forms.
  unfoldable pub open_menu : Sender → Command World (Unit {0})
  open_menu sender = show_page server.python sender main_menu

  unfoldable pub handle_menu : Sender → List String → Command World (Unit {0})
  handle_menu sender (arg ∷ args) = refuse "Usage: /bd menu"
  handle_menu sender [] =
      if sender.has_send_form
      then open_menu sender
      else (do send_message "The BlockData menu is only available to players."; send_help)

  -- `_SUBCOMMAND_HANDLERS`
  unfoldable pub run_subcommand : String → Sender → List String → Command World (Unit {0})
  run_subcommand word sender args =
      if word == "menu"
      then handle_menu sender args
      else if word == "locate"
      then handle_locate server sender args
      else if word == "inspect"
      then handle_inspect server sender args
      else if word == "item"
      then handle_item server sender args
      else if word == "audit"
      then handle_audit server sender args
      else if word == "state"
      then handle_state server sender args
      else send_help

  -- `_dispatch`
  unfoldable pub dispatch : Sender → List String → Command World (Unit {0})
  dispatch sender [] = if sender.has_send_form then open_menu sender else send_help
  dispatch sender (word ∷ args) = run_subcommand (server.python.lower word) sender args

  -- `on_command`, which gives whether the command is the plugin's
  unfoldable pub on_command : String → Sender → List String → Command World Bool
  on_command name sender args =
      if contains ("bd" ∷ "blockdata" ∷ []) name
      then (do to_the_end server.python (dispatch sender args); give true)
      else give false

  unfoldable pub run_action : Sender → PageAction → Command World (Unit {0})
  run_action sender (show page) = show_page server.python sender page
  run_action sender (dispatch_and_reopen args reopen) = do
    to_the_end server.python (dispatch sender args)
    show_page server.python sender reopen
  run_action sender help_then_main = do send_help; show_page server.python sender main_menu
  run_action sender close = give tt

  -- `actions[selection]`, of an integer within the list
  unfoldable pub action_at : Option ℤ → List (String × PageAction) → Option PageAction
  action_at none actions = none
  action_at (some (negsuc n)) actions = none
  action_at (some (pos n)) actions = elim (get_elem? actions n) [
    | none ↦ none
    | some action ↦ some action.1
  ]

  unfoldable pub choose : Sender → Page → Option PageAction → Command World (Unit {0})
  choose sender page (some action) = run_action sender action
  choose sender page none = do
    send_message "The BlockData form returned an invalid selection."
    show_page server.python sender page

  unfoldable pub run_step : Sender → Page → FormStep → Command World (Unit {0})
  run_step sender page (reject message) = do
    send_message message
    show_page server.python sender page
  run_step sender page (run args reopen) = run_action sender (dispatch_and_reopen args reopen)
  run_step sender page (go_to next) = show_page server.python sender next

  -- What a submission asks for, once the form is released.
  unfoldable pub answer : Sender → Page → Submission → Command World (Unit {0})
  answer sender page (selection index) =
      choose sender page (action_at (as_int index) (page_actions page))
  answer sender page (response text) =
      run_step sender page (decode server.python page (server.python.loads text))

  -- The callbacks of a form.
  unfoldable pub on_submit : Sender → SentForm → Submission → Command World (Unit {0})
  on_submit sender form submission =
      run_form_action server.python sender form.token (answer sender form.page submission)

  unfoldable pub on_close : Sender → SentForm → Command World (Unit {0})
  on_close sender form = close_form server.python sender form.token (page_back form.page)
