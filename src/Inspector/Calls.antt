-- ===== src/Inspector/Calls.antt =====
-- What every command of the inspector keeps, for a property that the forms do not change.
use endstone_blockdata_api.Base.{
  ℕ, suc, String, Bool, true, false, Option, none, some, List, [], ◌∷◌, ◌⊎◌, inl, inr, ◌==◌,
  string_eq, Error,
}
use endstone_blockdata_api.Base.Dict
use endstone_blockdata_api.Nbt.{ItemNbt}
use endstone_blockdata_api.Model.{BlockLocation}
use endstone_blockdata_api.Inspector.Python.{Python}
use endstone_blockdata_api.Inspector.Pages.{Page, main_menu}
use endstone_blockdata_api.Inspector.Session.{
  InspectorPatch, Server, Session, Sender, SentForm, Permission, no_checker, checked, check_failed,
}
use endstone_blockdata_api.Inspector.Command.{Ending, goes_on, returns, raises, Command}
use endstone_blockdata_api.Inspector.Triples.{
  Held, Triple, Keeps, then-Triple, if-Triple, give-Keeps, stop-Keeps, Neutral, refuse-Keeps,
  send_message-Keeps, send_all-Keeps,
}
use endstone_blockdata_api.Inspector.Forms.{
  with_tokens, sender_is_dead, clear_form_lock, release_form, has_form_permission, permission_of,
  send_new_form, send_or_release, send_unless_open, send_by_lock, send_to_living, send_if_allowed,
  send_locked_form, to_the_end, complete_outcome, show_page, release_if,
}
use endstone_blockdata_api.Inspector.Dispatch.{
  send_help, open_menu, handle_menu, run_subcommand, dispatch,
}
use endstone_blockdata_api.Inspector.Writes.{Writer, ends_after}
use endstone_blockdata_api.Inspector.Writes.Items.{IsItemPatch, handle_item-Triple}
use endstone_blockdata_api.Inspector.Writes.States.{IsStatePatch, handle_state-Triple}
use endstone_blockdata_api.Inspector.Reads.Audits.{handle_audit-Keeps}
use endstone_blockdata_api.Inspector.Reads.Locate.{handle_locate-Keeps}
use endstone_blockdata_api.Inspector.Reads.Inspect.{handle_inspect-Keeps}

-- Properties that the lock on forms keeps: a token that goes, a new token, a form that is sent.
pub record Locks {World : Type 0} (Kept : Session World → Type 0) : Type 0 where
  pub removal :
      (session : Session World) (key : String)
      → Kept session
      → Kept (with_tokens (Dict.erase key session.plugin.active_forms) session)
  pub grant :
      (session : Session World) (key : String)
      → Kept session
      → Kept
          (record (with_tokens
            (Dict.insert key session.drawn session.plugin.active_forms)
            session) { drawn = suc session.drawn })
  pub sending :
      (session : Session World) (sent : List SentForm)
      → Kept session
      → Kept (record session { sent = sent })

module _ {World : Type 0} (python : Python) where
  completed-Held :
      (Ends : Session World → Type 0) (outcome : Ending (Unit {0})) (session : Session World)
      → Held Ends (λ _. Ends) (outcome, session)
      → Held Ends (λ _. Ends) (complete_outcome python outcome session)
  unfolding complete_outcome
  completed-Held Ends (goes_on value) session held = held
  completed-Held Ends returns session held = held
  completed-Held Ends (raises error) session held = held

  pub to_the_end-Triple :
      {Starts Ends : Session World → Type 0} {command : Command World (Unit {0})}
      → Triple Starts Ends (λ _. Ends) command
      → Triple Starts Ends (λ _. Ends) (to_the_end python command)
  unfolding to_the_end
  to_the_end-Triple {Ends = Ends} {command = command} one = record {
    runs = λ session starts.
        completed-Held Ends (command session).0 (command session).1 (one.runs session starts);
  }

module _ {World : Type 0} (python : Python) {Kept : Session World → Type 0}
    (neutral : Neutral Kept) where
  permission_of-Keeps : (permission : Permission) → Keeps Kept (permission_of python permission)
  unfolding permission_of
  permission_of-Keeps no_checker =
      then-Triple (send_message-Keeps neutral _) (λ _. give-Keeps false)
  permission_of-Keeps (checked true) = give-Keeps true
  permission_of-Keeps (checked false) =
      then-Triple (send_message-Keeps neutral _) (λ _. give-Keeps false)
  permission_of-Keeps (check_failed error) =
      then-Triple (send_message-Keeps neutral _) (λ _. give-Keeps false)

  pub has_form_permission-Keeps : (sender : Sender) → Keeps Kept (has_form_permission python sender)
  unfolding has_form_permission
  has_form_permission-Keeps sender = permission_of-Keeps sender.permission

module _ {World : Type 0} (python : Python) {Kept : Session World → Type 0} (neutral : Neutral Kept)
    (locks : Locks Kept) where
  pub clear_form_lock-Keeps : (sender : Sender) → Keeps Kept (clear_form_lock python sender)
  unfolding clear_form_lock
  clear_form_lock-Keeps sender = record { runs = λ session kept. locks.removal session _ kept }

  release_if-Keeps : (held : Bool) (key : String) → Keeps Kept (release_if python held key)
  unfolding release_if
  release_if-Keeps true key = record { runs = λ session kept. locks.removal session key kept }
  release_if-Keeps false key = give-Keeps false

  pub release_form-Keeps :
      (sender : Sender) (token : ℕ) → Keeps Kept (release_form python sender token)
  unfolding release_form
  release_form-Keeps sender token = record {
    runs = λ session kept. (release_if-Keeps _ _).runs session kept;
  }

  send_or_release-Keeps :
      (sender : Sender) (page : Page) (token : ℕ) (failure : Option Error)
      → Keeps Kept (send_or_release python sender page token failure)
  unfolding send_or_release
  send_or_release-Keeps sender page token none = record {
    runs = λ session kept. locks.sending session _ kept;
  }
  send_or_release-Keeps sender page token (some error) =
      then-Triple (release_form-Keeps sender token) (λ released. send_message-Keeps neutral _)

  send_new_form-Keeps :
      (sender : Sender) (page : Page) → Keeps Kept (send_new_form python sender page)
  unfolding send_new_form
  send_new_form-Keeps sender page = record {
    runs = λ session kept.
        (send_or_release-Keeps sender page session.drawn sender.form_error).runs _
          (locks.grant session _ kept);
  }

  send_by_lock-Keeps :
      (sender : Sender) (page : Page) (held : Option ℕ)
      → Keeps Kept (send_by_lock python sender page held)
  unfolding send_by_lock
  send_by_lock-Keeps sender page (some token) = refuse-Keeps neutral _
  send_by_lock-Keeps sender page none = send_new_form-Keeps sender page

  send_unless_open-Keeps :
      (sender : Sender) (page : Page) → Keeps Kept (send_unless_open python sender page)
  unfolding send_unless_open
  send_unless_open-Keeps sender page = record {
    runs = λ session kept. (send_by_lock-Keeps sender page _).runs session kept;
  }

  send_if_allowed-Keeps :
      (sender : Sender) (page : Page) (allowed : Bool)
      → Keeps Kept (send_if_allowed python sender page allowed)
  unfolding send_if_allowed send_to_living
  send_if_allowed-Keeps sender page false = stop-Keeps
  send_if_allowed-Keeps sender page true =
      if-Triple (sender_is_dead sender)
        (then-Triple (clear_form_lock-Keeps sender) (λ _. refuse-Keeps neutral _))
        (send_unless_open-Keeps sender page)

  send_locked_form-Keeps :
      (sender : Sender) (page : Page) → Keeps Kept (send_locked_form python sender page)
  unfolding send_locked_form
  send_locked_form-Keeps sender page =
      if-Triple sender.has_send_form
        (then-Triple (has_form_permission-Keeps python neutral sender)
          (λ allowed. send_if_allowed-Keeps sender page allowed))
        (refuse-Keeps neutral _)

  pub show_page-Keeps : (sender : Sender) (page : Page) → Keeps Kept (show_page python sender page)
  unfolding show_page
  show_page-Keeps sender page = to_the_end-Triple python (send_locked_form-Keeps sender page)

-- The patches that the commands may send, from a capture of the block.
abbrev pub IsGuarded : Python → BlockLocation → ItemNbt → InspectorPatch → Type 0
IsGuarded python loc snapshot patch =
    IsItemPatch python snapshot patch ⊎ IsStatePatch python snapshot patch

module _ {World : Type 0} (server : Server World) {Kept Ends : Session World → Type 0}
    (writer : Writer Kept Ends (IsGuarded server.python)) (locks : Locks Kept) where
  open_menu-Keeps : (sender : Sender) → Keeps Kept (open_menu server sender)
  unfolding open_menu
  open_menu-Keeps sender = show_page-Keeps server.python writer.neutral locks sender main_menu

  send_help-Keeps : Keeps Kept (send_help server)
  unfolding send_help
  send_help-Keeps = send_all-Keeps writer.neutral _

  handle_menu-Keeps :
      (sender : Sender) (args : List String) → Keeps Kept (handle_menu server sender args)
  unfolding handle_menu
  handle_menu-Keeps sender [] =
      if-Triple sender.has_send_form (open_menu-Keeps sender)
        (then-Triple (send_message-Keeps writer.neutral _) (λ _. send_help-Keeps))
  handle_menu-Keeps sender (arg ∷ args) = refuse-Keeps writer.neutral _

  run_subcommand-Triple :
      (word : String) (sender : Sender) (args : List String)
      → Triple Kept Ends (λ _. Ends) (run_subcommand server word sender args)
  unfolding run_subcommand
  run_subcommand-Triple word sender args =
      if-Triple (word == "menu") (ends_after writer (handle_menu-Keeps sender args)) (
        if-Triple (word == "locate")
          (ends_after writer (handle_locate-Keeps server writer.neutral sender args))
          (if-Triple (word == "inspect")
            (ends_after writer (handle_inspect-Keeps server writer.neutral sender args))
            (if-Triple (word == "item")
              (handle_item-Triple server writer (λ loc snapshot patch h. inl h) sender args)
              (if-Triple (word == "audit")
                (ends_after writer (handle_audit-Keeps server writer.neutral sender args))
                (if-Triple (word == "state")
                  (handle_state-Triple server writer (λ loc snapshot patch h. inr h) sender args)
                  (ends_after writer send_help-Keeps))))))

  pub dispatch-Triple :
      (sender : Sender) (args : List String)
      → Triple Kept Ends (λ _. Ends) (dispatch server sender args)
  unfolding dispatch
  dispatch-Triple sender [] =
      if-Triple sender.has_send_form (ends_after writer (open_menu-Keeps sender))
        (ends_after writer send_help-Keeps)
  dispatch-Triple sender (word ∷ args) = run_subcommand-Triple _ sender args
