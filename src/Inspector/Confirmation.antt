-- ===== src/Inspector/Confirmation.antt =====
-- Which commands the forms of the inspector run without a confirmation.
use endstone_blockdata_api.Base.{
  ℕ, zero, suc, ◌≡◌, refl, String, Bool, true, false, Option, none, some, List, [], ◌∷◌, ◌⊎◌, inl,
  inr, Bool-cases, Option-cases, string_eq, nat_eq, ◌&&◌,
}
use endstone_blockdata_api.Base.Int.{ℤ, pos, negsuc, leb_ℤ}
use endstone_blockdata_api.Nbt.{Value, as_list}
use endstone_blockdata_api.Inspector.Python.{Python}
use endstone_blockdata_api.Inspector.Pages.{
  Page, main_menu, locate_form, inspect_menu, inspect_at_form, inventory_menu, item_add_form,
  item_remove_form, audit_menu, audit_at_form, state_menu, state_set_form, write_confirmation,
  PageAction, page_actions, page_validators,
}
use endstone_blockdata_api.Inspector.Session.{Server, Session, Sender, SentForm}
use endstone_blockdata_api.Inspector.Triples.{Keeps, Neutral}
use endstone_blockdata_api.Inspector.Checks.{FormStep, unless_problem}
use endstone_blockdata_api.Inspector.Responses.{
  decode, decode_values, use_values, locate_values, locate_step, inspect_values, item_add_values,
  item_remove_values, audit_values, audit_step, state_set_values, item_added, all_valid,
}
use endstone_blockdata_api.Inspector.Dispatch.{
  dispatch, run_subcommand, action_at, answer, on_submit, Submission,
}
use endstone_blockdata_api.Inspector.Reads.Audits.{handle_audit-Keeps}
use endstone_blockdata_api.Inspector.Reads.Locate.{handle_locate-Keeps}
use endstone_blockdata_api.Inspector.Reads.Inspect.{handle_inspect-Keeps}
use endstone_blockdata_api.Inspector.Calls.{Locks}
use endstone_blockdata_api.Inspector.Answers.{
  AllowedAction, AllowedStep, AllowedChoice, answer-Keeps, submitted-Keeps, Keeps-session,
}

-- The commands that change no block.
abbrev pub IsReading : List String → Type 0
IsReading [] = ⊥
IsReading (word ∷ args) = (word ≡ "locate") ⊎ ((word ≡ "inspect") ⊎ (word ≡ "audit"))

-- Every page but the confirmation of a write.
abbrev pub IsUnconfirmed : Page → Type 0
IsUnconfirmed (write_confirmation title args back) = ⊥
IsUnconfirmed _ = Unit

abbrev AreReading : List (String × PageAction) → Type 0
AreReading [] = Unit
AreReading (button ∷ buttons) = AllowedAction IsReading button.1 × AreReading buttons

module _ {World : Type 0} (server : Server World) where
  nth-IsReading :
      (buttons : List (String × PageAction)) (n : ℕ)
      → AreReading buttons
      → AllowedChoice IsReading (action_at server (some (pos n)) buttons)
  unfolding action_at
  nth-IsReading [] n all = tt
  nth-IsReading (button ∷ buttons) zero all = all.0
  nth-IsReading (button ∷ buttons) (suc n) all = nth-IsReading buttons n all.1

  action_at-IsReading :
      (index : Option ℤ) (buttons : List (String × PageAction))
      → AreReading buttons
      → AllowedChoice IsReading (action_at server index buttons)
  unfolding action_at
  action_at-IsReading none buttons all = tt
  action_at-IsReading (some (negsuc n)) buttons all = tt
  action_at-IsReading (some (pos n)) buttons all = nth-IsReading buttons n all

page_actions-AreReading : (page : Page) → IsUnconfirmed page → AreReading (page_actions page)
unfolding page_actions
page_actions-AreReading main_menu here = (tt, (tt, (tt, (tt, (tt, (tt, (tt, tt)))))))
page_actions-AreReading inspect_menu here = (inr (inl refl), (tt, (tt, tt)))
page_actions-AreReading inventory_menu here = (tt, (tt, (tt, (tt, (tt, tt)))))
page_actions-AreReading audit_menu here =
    (inr (inr refl), (inr (inr refl), (tt, (inr (inr refl), (tt, tt)))))
page_actions-AreReading state_menu here = (tt, (tt, (tt, tt)))
page_actions-AreReading (write_confirmation title args back) here = elim here [ ]
page_actions-AreReading locate_form here = tt
page_actions-AreReading inspect_at_form here = tt
page_actions-AreReading (item_add_form explicit) here = tt
page_actions-AreReading (item_remove_form explicit) here = tt
page_actions-AreReading audit_at_form here = tt
page_actions-AreReading (state_set_form explicit) here = tt

unless_problem-IsReading :
    (problem : Option String) (step : FormStep)
    → AllowedStep IsReading step
    → AllowedStep IsReading (unless_problem problem step)
unfolding unless_problem
unless_problem-IsReading none step reads = reads
unless_problem-IsReading (some message) step reads = tt

module _ (python : Python) where
  locate_step-IsReading : (radius : Option ℤ) → AllowedStep IsReading (locate_step python radius)
  unfolding locate_step
  locate_step-IsReading none = tt
  locate_step-IsReading (some radius) =
      elim (Bool-cases (leb_ℤ (pos 0) radius && leb_ℤ radius (pos 12))) [
        | inl inside ↦ rw inside (inl refl)
        | inr outside ↦ rw outside tt
      ]

  audit_step-IsReading :
      (operation : Option String) (fields : List (String × String)) (coordinates : List String)
      → AllowedStep IsReading (audit_step python operation fields coordinates)
  unfolding audit_step
  audit_step-IsReading none fields coordinates = tt
  audit_step-IsReading (some operation) fields coordinates =
      unless_problem-IsReading _ _ (inr (inr refl))

  item_add_values-IsReading :
      (explicit : Bool) (values : List Value)
      → AllowedStep IsReading (item_add_values python explicit values)
  unfolding item_add_values item_added
  item_add_values-IsReading true (x ∷ y ∷ z ∷ slot ∷ item_id ∷ count ∷ nbt ∷ []) =
      unless_problem-IsReading _ _ tt
  item_add_values-IsReading false (slot ∷ item_id ∷ count ∷ nbt ∷ []) =
      unless_problem-IsReading _ _ tt
  item_add_values-IsReading explicit values = tt

  use_values-IsReading :
      (page : Page) (values : List Value) → AllowedStep IsReading (use_values python page values)
  unfolding use_values locate_values inspect_values audit_values item_remove_values state_set_values
  use_values-IsReading locate_form (radius ∷ []) = locate_step-IsReading _
  use_values-IsReading inspect_at_form (x ∷ y ∷ z ∷ []) =
      unless_problem-IsReading _ _ (inr (inl refl))
  use_values-IsReading audit_at_form (operation ∷ x ∷ y ∷ z ∷ []) = audit_step-IsReading _ _ _
  use_values-IsReading (item_add_form explicit) values = item_add_values-IsReading explicit values
  use_values-IsReading (item_remove_form true) (x ∷ y ∷ z ∷ slot ∷ []) =
      unless_problem-IsReading _ _ tt
  use_values-IsReading (item_remove_form false) (slot ∷ []) = unless_problem-IsReading _ _ tt
  use_values-IsReading (state_set_form true) (name ∷ value ∷ x ∷ y ∷ z ∷ []) =
      unless_problem-IsReading _ _ tt
  use_values-IsReading (state_set_form false) (name ∷ value ∷ []) = unless_problem-IsReading _ _ tt
  use_values-IsReading page values = tt

  decode_values-IsReading :
      (page : Page) (values : List Value) → AllowedStep IsReading (decode_values python page values)
  unfolding decode_values
  decode_values-IsReading page values =
      elim (Bool-cases (all_valid python (page_validators page) values)) [
        | inl valid ↦ rw valid (use_values-IsReading page values)
        | inr invalid ↦ rw invalid tt
      ]

  decode-IsReading :
      (page : Page) (decoded : String ⊎ Value) → AllowedStep IsReading (decode python page decoded)
  unfolding decode
  decode-IsReading page (inl message) = tt
  decode-IsReading page (inr v) = elim (Option-cases (as_list v)) [
    | inl absent ↦ rw (absent, AllowedStep) tt
    | inr (values, there) ↦ rw (there, AllowedStep) (decode_values-IsReading page values)
  ]

-- `str.lower` leaves the words of the reading commands as they are.
abbrev pub KeepsReadingWords : Python → Type 0
KeepsReadingWords python =
    (python.lower "locate" ≡ "locate")
    × ((python.lower "inspect" ≡ "inspect") × (python.lower "audit" ≡ "audit"))

module _ {World : Type 0} (server : Server World) (words : KeepsReadingWords server.python)
    (world : World) where
  abbrev Same : Session World → Type 0
  Same session = session.world ≡ world

  neutral : Neutral Same
  neutral = record {
    messages = λ session sent same. same;
    plugin = λ session after forms same. same;
  }

  locks : Locks Same
  locks = record {
    removal = λ session gone same. same;
    grant = λ session new same. same;
    sending = λ session sent same. same;
  }

  dispatch-Same :
      (sender : Sender) (args : List String)
      → IsReading args
      → Keeps Same (dispatch server sender args)
  unfolding dispatch run_subcommand string_eq
  dispatch-Same sender [] reads = elim reads [ ]
  dispatch-Same sender (word ∷ args) (inl here) =
      rw (here, words.0) (handle_locate-Keeps server neutral sender args)
  dispatch-Same sender (word ∷ args) (inr (inl here)) =
      rw (here, words.1.0) (handle_inspect-Keeps server neutral sender args)
  dispatch-Same sender (word ∷ args) (inr (inr here)) =
      rw (here, words.1.1) (handle_audit-Keeps server neutral sender args)

  answer-Same :
      (sender : Sender) (page : Page)
      → IsUnconfirmed page
      → (submission : Submission) → Keeps Same (answer server sender page submission)
  answer-Same sender page unconfirmed submission =
      answer-Keeps server neutral locks IsReading dispatch-Same sender page
        (λ index. action_at-IsReading server index _ (page_actions-AreReading page unconfirmed))
        (decode-IsReading server.python page) submission

module _ {World : Type 0} (server : Server World) (words : KeepsReadingWords server.python) where
  -- Only the confirmation of a write changes the world: where `str.lower` leaves the words locate,
  -- inspect and audit as they are, whatever a player submits to a form of any other page, and
  -- whatever the bridge answers, the world is after it what it was before.
  pub on_submit-unconfirmed :
      (sender : Sender) (form : SentForm)
      → IsUnconfirmed form.page
      → (submission : Submission) (session : Session World)
      → (on_submit server sender form submission session).1.world ≡ session.world
  on_submit-unconfirmed sender form unconfirmed submission session =
      Keeps-session (λ s. s.world ≡ session.world)
        (submitted-Keeps server (neutral server words session.world)
          (locks server words session.world) sender form submission
          (answer-Same server words session.world sender form.page unconfirmed submission))
        session refl
