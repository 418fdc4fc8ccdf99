-- ===== src/Inspector/Tokens.antt =====
-- A form of the inspector acts at most once.
use endstone_blockdata_api.Base.{
  ℕ, ◌<◌, ◌≡◌, refl, sym, ap, ◌∙◌, subst, ◌≢◌, arith, String, Bool, true, false, Option, none, some,
  List, [], ◌∷◌, string_eq, nat_eq,
}
use endstone_blockdata_api.Base.Dict
use endstone_blockdata_api.Base.Dict.{lookup-insert, lookup-erase, lookup-nil}
use endstone_blockdata_api.Inspector.Pages.{
  Page, page_back, PageAction, show, dispatch_and_reopen, help_then_main, close,
}
use endstone_blockdata_api.Inspector.Session.{Server, Session, Sender, SentForm}
use endstone_blockdata_api.Inspector.Command.{returns}
use endstone_blockdata_api.Inspector.Triples.{Held, Keeps, then-Triple, Neutral}
use endstone_blockdata_api.Inspector.Forms.{
  holds_token, release_form, release_if, act_if_released, run_form_action, on_disable,
}
use endstone_blockdata_api.Inspector.Targets.{key_of_sender}
use endstone_blockdata_api.Inspector.Checks.{FormStep, reject, run, go_to}
use endstone_blockdata_api.Inspector.Dispatch.{answer, on_submit, on_close, Submission}
use endstone_blockdata_api.Inspector.Writes.{Writer}
use endstone_blockdata_api.Inspector.Calls.{
  IsGuarded, Locks, dispatch-Triple, clear_form_lock-Keeps,
}
use endstone_blockdata_api.Inspector.Answers.{
  AllowedAction, AllowedStep, AllowedChoice, answer-Keeps, catching-Keeps, act_if_released-Keeps,
  close_form-Keeps, submitted-Keeps, Held-session, Keeps-session,
}
use endstone_blockdata_api.Inspector.Events.{
  Event, command, submit, dismiss, leave, disable, elsewhere, handle, handle_all,
}

-- A token that was drawn, and that the player's form does not have.
abbrev pub IsSpent : {World : Type 0} → String → ℕ → Session World → Type 0
IsSpent key token session =
    (token < session.drawn) × (Dict.lookup key session.plugin.active_forms ≢ some token)

module _ {World : Type 0} (server : Server World) (key : String) (token : ℕ) where
  abbrev Spent : Session World → Type 0
  Spent = IsSpent key token

  neutral : Neutral Spent
  neutral = record {
    messages = λ session sent spent. spent;
    plugin = λ session after same spent.
        (spent.0, (λ held. spent.1 (ap (Dict.lookup key) (sym same.0) ∙ held)));
  }

  locks : Locks Spent
  locks = record {
    removal = λ session gone spent. (
      spent.0,
      (λ held. ground (arith, spent.1, held, lookup-erase key gone session.plugin.active_forms)),
    );
    grant = λ session new spent. (
      ground (arith, spent.0),
      (λ held.
          ground
            (arith, spent, held, lookup-insert key new session.drawn session.plugin.active_forms)),
    );
    sending = λ session sent spent. spent;
  }

  writer : Writer Spent Spent (IsGuarded server.python)
  writer = record {
    neutral = neutral;
    neutral_end = neutral;
    stays = λ session spent. spent;
    writes = λ session bridge loc snapshot patch spent has gives guarded. spent;
  }

  any_action : (action : PageAction) → AllowedAction (λ _. Unit) action
  any_action (show page) = tt
  any_action (dispatch_and_reopen args reopen) = tt
  any_action help_then_main = tt
  any_action close = tt

  any_choice : (action : Option PageAction) → AllowedChoice (λ _. Unit) action
  any_choice none = tt
  any_choice (some action) = any_action action

  any_step : (step : FormStep) → AllowedStep (λ _. Unit) step
  any_step (reject message) = tt
  any_step (run args reopen) = tt
  any_step (go_to page) = tt

  any_answer-Keeps :
      (sender : Sender) (page : Page) (submission : Submission)
      → Keeps Spent (answer server sender page submission)
  any_answer-Keeps sender page submission =
      answer-Keeps server neutral locks (λ _. Unit)
        (λ s args _. dispatch-Triple server writer locks s args) sender page (λ index. any_choice _)
        (λ decoded. any_step _) submission

  handle-Spent :
      (event : Event World) (session : Session World)
      → Spent session
      → Spent (handle server event session)
  unfolding handle on_close on_disable
  handle-Spent (command sender args) session spent =
      Keeps-session Spent (dispatch-Triple server writer locks sender args) session spent
  handle-Spent (submit sender form submission) session spent =
      Keeps-session Spent
        (submitted-Keeps server neutral locks sender form submission
          (any_answer-Keeps sender form.page submission))
        session spent
  handle-Spent (dismiss sender form) session spent =
      Keeps-session Spent
        (close_form-Keeps server neutral locks sender form.token (page_back form.page)) session
        spent
  handle-Spent (leave sender) session spent =
      Keeps-session Spent (clear_form_lock-Keeps server.python neutral locks sender) session spent
  handle-Spent disable session spent =
      (spent.0, (λ held. ground (arith, held, lookup-nil {V = ℕ} key)))
  handle-Spent (elsewhere after) session spent = spent

  handle_all-Spent :
      (events : List (Event World)) (session : Session World)
      → Spent session
      → Spent (handle_all server events session)
  unfolding handle_all
  handle_all-Spent [] session spent = spent
  handle_all-Spent (event ∷ events) session spent =
      handle_all-Spent events (handle server event session) (handle-Spent event session spent)

module _ {World : Type 0} (server : Server World) (sender : Sender) (form : SentForm) where
  abbrev key : String
  key = key_of_sender server.python sender

  not_held :
      (session : Session World)
      → IsSpent key form.token session
      → holds_token key form.token session.plugin.active_forms ≡ false
  unfolding holds_token
  not_held session spent = ground (arith, spent.1)

  -- A spent form does nothing.
  on_submit-spent :
      (submission : Submission) (session : Session World)
      → IsSpent key form.token session
      → on_submit server sender form submission session ≡ (returns, session)
  unfolding on_submit run_form_action release_form release_if act_if_released
  on_submit-spent submission session spent = simp (not_held session spent)

  release-spends :
      (held : Bool) (session : Session World)
      → holds_token key form.token session.plugin.active_forms ≡ held
      → form.token < session.drawn
      → Held
          (IsSpent key form.token)
          (λ _. IsSpent key form.token)
          (release_if server.python held key session)
  unfolding release_if holds_token
  release-spends true session holds old =
      (old, (λ held. ground (arith, held, lookup-erase key key session.plugin.active_forms)))
  release-spends false session holds old = (old, (λ held. ground (arith, holds, held)))

  -- Submitting a form that was drawn spends it, whether it acts or not.
  on_submit-spends :
      (submission : Submission) (session : Session World)
      → form.token < session.drawn
      → IsSpent key form.token (on_submit server sender form submission session).1
  unfolding on_submit run_form_action release_form
  on_submit-spends submission session old = Held-session (IsSpent key form.token) _ _ (
      (then-Triple {Starts = λ s. s ≡ session}
          (record {
            runs = λ s same.
                subst
                  (λ t.
                    Held (IsSpent key form.token) (λ _. IsSpent key form.token)
                      (release_form server.python sender form.token t))
                  (sym same) (release-spends _ session refl old);
          })
          (λ released.
            act_if_released-Keeps server (neutral server key form.token)
              (locks server key form.token) sender released
              (catching-Keeps server (neutral server key form.token) (locks server key form.token) _
                (any_answer-Keeps server key form.token sender form.page submission)))).runs
        session refl)

  -- A form whose token was drawn acts at most once: after a first submission of it, whatever
  -- commands, submissions, closings, departures and changes of the world follow, a second
  -- submission of the same form by the same player returns at once and changes nothing.
  pub on_submit-once :
      (first second : Submission) (events : List (Event World)) (session : Session World)
      → form.token < session.drawn
      → on_submit server sender form second
          (handle_all server events (on_submit server sender form first session).1)
        ≡ (returns, handle_all server events (on_submit server sender form first session).1)
  on_submit-once first second events session old =
      on_submit-spent second _
        (handle_all-Spent server key form.token events _ (on_submit-spends first session old))
