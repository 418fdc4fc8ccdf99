-- ===== src/Inspector/Forms.antt =====
-- The lock on forms: a player has at most one form, which its token names.
use Prim.Native.String.{◌++◌}
use mathlib.Core.List.{◌++◌ as append}
use endstone_blockdata_api.Base.{
  ℕ, suc, String, Bool, true, false, Option, none, some, [], ◌∷◌, ◌==◌, if◌then◌else◌, ok, err,
  Error, string_eq, nat_eq,
}
use endstone_blockdata_api.Base.Dict
use endstone_blockdata_api.Inspector.Python.{Python}
use endstone_blockdata_api.Inspector.Pages.{Page}
use endstone_blockdata_api.Inspector.Session.{
  Session, Sender, Permission, no_checker, checked, check_failed,
}
use endstone_blockdata_api.Inspector.Command.{
  Ending, goes_on, returns, raises, Command, ◌>>=◌, ◌>>◌, give, stop, send_message, refuse,
}
use endstone_blockdata_api.Inspector.Targets.{key_of_sender}

-- `_sender_is_dead`: a player whose state cannot be read counts as dead.
unfoldable pub sender_is_dead : Sender → Bool
sender_is_dead sender = elim sender.is_dead [ ok dead ↦ dead | err _ ↦ true ]

-- `tokens.get(key) != token`, negated
unfoldable pub holds_token : String → ℕ → Dict.Dict String ℕ → Bool
holds_token key token tokens = elim (Dict.lookup key tokens) [
  | none ↦ false
  | some held ↦ held == token
]

module _ {ℓ} {World : Type ℓ} where
  abbrev pub with_tokens : Dict.Dict String ℕ → Session World → Session World
  with_tokens tokens session = record session {
    plugin = record session.plugin { active_forms = tokens };
  }

  -- `on_disable`
  unfoldable pub on_disable : Command World (Unit {0})
  on_disable session = give tt (with_tokens [] session)

module _ {ℓ} {World : Type ℓ} (python : Python) where
  -- `_clear_form_lock`, at a quit, a death and where the player is dead
  unfoldable pub clear_form_lock : Sender → Command World (Unit {0})
  clear_form_lock sender session =
      give tt
        (with_tokens (Dict.erase (key_of_sender python sender) session.plugin.active_forms) session)

  unfoldable pub release_if : Bool → String → Command World Bool
  release_if true key session =
      give true (with_tokens (Dict.erase key session.plugin.active_forms) session)
  release_if false key session = give false session

  -- `_release_form`
  unfoldable pub release_form : Sender → ℕ → Command World Bool
  release_form sender token session =
      let key = key_of_sender python sender in
      release_if (holds_token key token session.plugin.active_forms) key session

  unfoldable pub permission_of : Permission → Command World Bool
  permission_of no_checker = do
    send_message "Unable to verify the bd.admin permission; no form was opened."
    give false
  permission_of (check_failed error) = do
    send_message ("Unable to verify the bd.admin permission: " ++ python.error_text error)
    give false
  permission_of (checked true) = give true
  permission_of (checked false) = do
    send_message "You no longer have permission to use the BlockData menu."
    give false

  -- `_has_form_permission`
  unfoldable pub has_form_permission : Sender → Command World Bool
  has_form_permission sender = permission_of sender.permission

  -- `sender.send_form(form)`, and the release of the form where that raises
  unfoldable pub send_or_release : Sender → Page → ℕ → Option Error → Command World (Unit {0})
  send_or_release sender page token none session = give tt (record session {
    sent =
        append session.sent
          (record { key = key_of_sender python sender; token = token; page = page } ∷ []);
  })
  send_or_release sender page token (some error) session =
      (do
        released ← release_form sender token
        send_message ("Failed to open the BlockData form: " ++ python.error_text error))
        session

  -- `tokens[key] = uuid4()`, then the form is sent.
  unfoldable pub send_new_form : Sender → Page → Command World (Unit {0})
  send_new_form sender page session =
      let key = key_of_sender python sender in
      let tokens = Dict.insert key session.drawn session.plugin.active_forms in
      send_or_release sender page session.drawn sender.form_error
        (record (with_tokens tokens session) { drawn = suc session.drawn })

  -- The test of the lock.
  unfoldable pub send_by_lock : Sender → Page → Option ℕ → Command World (Unit {0})
  send_by_lock sender page (some token) = refuse "A BlockData form is already open."
  send_by_lock sender page none = send_new_form sender page

  unfoldable pub send_unless_open : Sender → Page → Command World (Unit {0})
  send_unless_open sender page session =
      send_by_lock sender page
        (Dict.lookup (key_of_sender python sender) session.plugin.active_forms) session

  unfoldable pub send_to_living : Sender → Page → Command World (Unit {0})
  send_to_living sender page =
      if sender_is_dead sender
      then (do
        clear_form_lock sender
        refuse "Cannot open a BlockData form while the player is dead.")
      else send_unless_open sender page

  unfoldable pub send_if_allowed : Sender → Page → Bool → Command World (Unit {0})
  send_if_allowed sender page false = stop
  send_if_allowed sender page true = send_to_living sender page

  -- `_send_locked_form`
  unfoldable pub send_locked_form : Sender → Page → Command World (Unit {0})
  send_locked_form sender page =
      if sender.has_send_form
      then (do allowed ← has_form_permission sender; send_if_allowed sender page allowed)
      else refuse "Interactive forms are only available to players."

  -- The end of a call whose early return the caller does not look at.
  unfoldable pub complete_outcome : Ending (Unit {0}) → Command World (Unit {0})
  complete_outcome (goes_on _) session = give tt session
  complete_outcome returns session = give tt session
  complete_outcome (raises error) session = (raises error, session)

  unfoldable pub to_the_end : Command World (Unit {0}) → Command World (Unit {0})
  to_the_end command session =
      let (outcome, after) = command session in complete_outcome outcome after

  -- `except Exception`: a message in the exception's place
  unfoldable pub catch_outcome : String → Ending (Unit {0}) → Command World (Unit {0})
  catch_outcome message (goes_on _) = give tt
  catch_outcome message returns = give tt
  catch_outcome message (raises error) = send_message (message ++ python.error_text error)

  unfoldable pub catching : String → Command World (Unit {0}) → Command World (Unit {0})
  catching message command session =
      let (outcome, after) = command session in catch_outcome message outcome after

  -- `_show_action_page` and `_show_modal_page`: every page is sent under the lock.
  unfoldable pub show_page : Sender → Page → Command World (Unit {0})
  show_page sender page = to_the_end (send_locked_form sender page)

  unfoldable pub when_allowed : Sender → Command World (Unit {0}) → Bool → Command World (Unit {0})
  when_allowed sender action false = stop
  when_allowed sender action true = action

  -- The checks that follow a release, before the action.
  unfoldable pub act_if_released :
      Sender → Command World (Unit {0}) → Bool → Command World (Unit {0})
  act_if_released sender action false = stop
  act_if_released sender action true =
      if sender_is_dead sender
      then stop
      else (do allowed ← has_form_permission sender; when_allowed sender action allowed)

  -- `_run_form_action`
  unfoldable pub run_form_action : Sender → ℕ → Command World (Unit {0}) → Command World (Unit {0})
  run_form_action sender token action = do
    released ← release_form sender token
    act_if_released sender (catching "BlockData form action failed: " action) released

  -- `_close_form`, with the page that closing leads to
  unfoldable pub close_form : Sender → ℕ → Option Page → Command World (Unit {0})
  close_form sender token none = do released ← release_form sender token; stop
  close_form sender token (some back) = do
    released ← release_form sender token
    act_if_released sender
        (catching "Could not return to the previous BlockData page: " (show_page sender back))
        released
