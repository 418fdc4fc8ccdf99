-- ===== src/Inspector/Answers.antt =====
-- What the callbacks of a form keep, for the commands that its page may run.
use Prim.Native.String.{◌++◌}
use mathlib.Core.List.{◌++◌ as append}
use endstone_blockdata_api.Base.Int.{ℤ}
use endstone_blockdata_api.Nbt.{Value, as_int}
use endstone_blockdata_api.Inspector.Pages.{page_actions}
use endstone_blockdata_api.Inspector.Responses.{decode}
use endstone_blockdata_api.Base.{
  ℕ, String, Bool, true, false, Option, none, some, List, [], ◌∷◌, ◌⊎◌, string_eq, nat_eq,
}
use endstone_blockdata_api.Inspector.Pages.{
  Page, PageAction, show, dispatch_and_reopen, help_then_main, close, main_menu,
}
use endstone_blockdata_api.Inspector.Session.{Server, Session, Sender, SentForm}
use endstone_blockdata_api.Inspector.Command.{Ending, goes_on, returns, raises, Command}
use endstone_blockdata_api.Inspector.Triples.{
  Held, Keeps, then-Triple, if-Triple, give-Keeps, stop-Keeps, Neutral, send_message-Keeps,
  send_all-Keeps,
}
use endstone_blockdata_api.Inspector.Forms.{
  show_page, sender_is_dead, act_if_released, when_allowed, catching, catch_outcome,
  run_form_action, close_form,
}
use endstone_blockdata_api.Inspector.Checks.{FormStep, reject, run, go_to}
use endstone_blockdata_api.Inspector.Dispatch.{
  dispatch, action_at, help_lines, send_help, run_action, choose, run_step, answer, on_submit,
  Submission, selection, response,
}
use endstone_blockdata_api.Inspector.Calls.{
  Locks, to_the_end-Triple, show_page-Keeps, has_form_permission-Keeps, release_form-Keeps,
}

-- The commands that a button or a response may run.
abbrev pub AllowedAction : (List String → Type 0) → PageAction → Type 0
AllowedAction Runs (dispatch_and_reopen args reopen) = Runs args
AllowedAction Runs action = Unit

abbrev pub AllowedStep : (List String → Type 0) → FormStep → Type 0
AllowedStep Runs (run args reopen) = Runs args
AllowedStep Runs step = Unit

abbrev pub AllowedChoice : (List String → Type 0) → Option PageAction → Type 0
AllowedChoice Runs none = Unit
AllowedChoice Runs (some action) = AllowedAction Runs action

module _ {World : Type 0} (Kept : Session World → Type 0) where
  -- However a command ends, what it keeps holds of the session that it leaves.
  pub Held-session :
      {A : Type 0} (outcome : Ending A) (session : Session World)
      → Held Kept (λ _. Kept) (outcome, session)
      → Kept session
  Held-session (goes_on value) session held = held
  Held-session returns session held = held
  Held-session (raises error) session held = held

  pub Keeps-session :
      {A : Type 0} {does : Command World A}
      → Keeps Kept does
      → (session : Session World) → Kept session
      → Kept (does session).1
  Keeps-session {does = does} one session kept =
      Held-session (does session).0 (does session).1 (one.runs session kept)

module _ {World : Type 0} (server : Server World) {Kept : Session World → Type 0}
    (neutral : Neutral Kept) (locks : Locks Kept) where
  pub page-Keeps :
      (sender : Sender) (page : Page) → Keeps Kept (show_page server.python sender page)
  page-Keeps sender page = show_page-Keeps server.python neutral locks sender page

  caught-Held :
      (message : String) (outcome : Ending (Unit {0})) (session : Session World)
      → Held Kept (λ _. Kept) (outcome, session)
      → Held Kept (λ _. Kept) (catch_outcome server.python message outcome session)
  unfolding catch_outcome
  caught-Held message (goes_on value) session held = held
  caught-Held message returns session held = held
  caught-Held message (raises error) session held =
      neutral.messages session
        (append session.messages ((message ++ server.python.error_text error) ∷ [])) held

  pub catching-Keeps :
      (message : String) {action : Command World (Unit {0})}
      → Keeps Kept action
      → Keeps Kept (catching server.python message action)
  unfolding catching
  catching-Keeps message {action = action} one = record {
    runs = λ session spent.
        caught-Held message (action session).0 (action session).1 (one.runs session spent);
  }

  when_allowed-Keeps :
      (sender : Sender) {action : Command World (Unit {0})} (allowed : Bool)
      → Keeps Kept action
      → Keeps Kept (when_allowed server.python sender action allowed)
  unfolding when_allowed
  when_allowed-Keeps sender true one = one
  when_allowed-Keeps sender false one = stop-Keeps

  pub act_if_released-Keeps :
      (sender : Sender) {action : Command World (Unit {0})} (released : Bool)
      → Keeps Kept action
      → Keeps Kept (act_if_released server.python sender action released)
  unfolding act_if_released
  act_if_released-Keeps sender false one = stop-Keeps
  act_if_released-Keeps sender true one = if-Triple (sender_is_dead sender) stop-Keeps (
      then-Triple (has_form_permission-Keeps server.python neutral sender)
        (λ allowed. when_allowed-Keeps sender allowed one))

  pub close_form-Keeps :
      (sender : Sender) (closed : ℕ) (back : Option Page)
      → Keeps Kept (close_form server.python sender closed back)
  unfolding close_form
  close_form-Keeps sender closed none =
      then-Triple (release_form-Keeps server.python neutral locks sender closed)
        (λ released. stop-Keeps)
  close_form-Keeps sender closed (some back) =
      then-Triple (release_form-Keeps server.python neutral locks sender closed) (λ released.
        act_if_released-Keeps sender released (catching-Keeps _ (page-Keeps sender back)))

  pub submitted-Keeps :
      (sender : Sender) (form : SentForm) (submission : Submission)
      → Keeps Kept (answer server sender form.page submission)
      → Keeps Kept (on_submit server sender form submission)
  unfolding on_submit run_form_action
  submitted-Keeps sender form submission one =
      then-Triple (release_form-Keeps server.python neutral locks sender form.token)
        (λ released. act_if_released-Keeps sender released (catching-Keeps _ one))

  module _ (Runs : List String → Type 0)
      (dispatches : (sender : Sender) (args : List String)
        → Runs args
        → Keeps Kept (dispatch server sender args)) where
    run_action-Keeps :
        (sender : Sender) (action : PageAction)
        → AllowedAction Runs action
        → Keeps Kept (run_action server sender action)
    unfolding run_action send_help
    run_action-Keeps sender (show page) allowed = page-Keeps sender page
    run_action-Keeps sender (dispatch_and_reopen args reopen) allowed =
        then-Triple (to_the_end-Triple server.python (dispatches sender args allowed))
          (λ _. page-Keeps sender reopen)
    run_action-Keeps sender help_then_main allowed =
        then-Triple (send_all-Keeps neutral (help_lines server.version))
          (λ _. page-Keeps sender main_menu)
    run_action-Keeps sender close allowed = give-Keeps tt

    choose-Keeps :
        (sender : Sender) (page : Page) (action : Option PageAction)
        → AllowedChoice Runs action
        → Keeps Kept (choose server sender page action)
    unfolding choose
    choose-Keeps sender page (some action) allowed = run_action-Keeps sender action allowed
    choose-Keeps sender page none allowed =
        then-Triple (send_message-Keeps neutral _) (λ _. page-Keeps sender page)

    run_step-Keeps :
        (sender : Sender) (page : Page) (step : FormStep)
        → AllowedStep Runs step
        → Keeps Kept (run_step server sender page step)
    unfolding run_step
    run_step-Keeps sender page (reject message) allowed =
        then-Triple (send_message-Keeps neutral message) (λ _. page-Keeps sender page)
    run_step-Keeps sender page (run args reopen) allowed = run_action-Keeps sender _ allowed
    run_step-Keeps sender page (go_to next) allowed = page-Keeps sender next

    -- What an answer to a page may run.
    pub answer-Keeps :
        (sender : Sender) (page : Page)
        → ((index : Option ℤ) → AllowedChoice Runs (action_at server index (page_actions page)))
        → ((decoded : String ⊎ Value) → AllowedStep Runs (decode server.python page decoded))
        → (submission : Submission) → Keeps Kept (answer server sender page submission)
    unfolding answer
    answer-Keeps sender page choices steps (selection index) =
        choose-Keeps sender page _ (choices (as_int index))
    answer-Keeps sender page choices steps (response text) =
        run_step-Keeps sender page _ (steps (server.python.loads text))
