-- ===== src/Inspector/Triples.antt =====
-- What a command keeps: statements on the session before and after it.
use endstone_blockdata_api.Base.{
  ◌≡◌, String, Bool, true, false, some, List, if◌then◌else◌, Result, ok, err,
}
use endstone_blockdata_api.Inspector.Session.{InspectorBridge, Plugin, Session}
use endstone_blockdata_api.Inspector.Command.{
  Ending, goes_on, returns, raises, Command, ◌>>=◌, follow, give, stop, send_message, send_all,
  refuse, uncaught,
}

module _ {ℓ κ μ} {World : Type ℓ} {A : Type μ} where
  -- Where a command ended: `Exits` after an early return or an exception, and otherwise `Gives`
  -- with the value.
  abbrev pub Held :
      (Session World → Type κ) → (A → Session World → Type κ) → Ending A × Session World → Type κ
  Held Exits Gives (goes_on value, session) = Gives value session
  Held Exits Gives (returns, session) = Exits session
  Held Exits Gives (raises error, session) = Exits session

-- A command from a session with `Starts`.
pub record Triple {ℓ κ μ} {World : Type ℓ} {A : Type μ} (Starts Exits : Session World → Type κ)
    (Gives : A → Session World → Type κ) (command : Command World A) : Type (ℓ ⊔ κ) where
  pub runs : (session : Session World) → Starts session → Held Exits Gives (command session)

-- A command that keeps a property of the session wherever it ends.
abbrev pub Keeps {ℓ κ μ} :
    {World : Type ℓ} {A : Type μ} → (Session World → Type κ) → Command World A → Type (ℓ ⊔ κ)
Keeps Kept command = Triple Kept Kept (λ _. Kept) command

module _ {ℓ κ μ ν} {World : Type ℓ} {A : Type μ} {B : Type ν} {Exits : Session World → Type κ}
    {Gives : A → Session World → Type κ} {Ends : B → Session World → Type κ}
    {rest : A → Command World B} where
  follow-Held :
      (next : (value : A) → Triple (Gives value) Exits Ends (rest value)) (outcome : Ending A)
      (session : Session World) (held : Held Exits Gives (outcome, session))
      → Held Exits Ends (follow rest outcome session)
  follow-Held next (goes_on value) session held = (next value).runs session held
  follow-Held next returns session held = held
  follow-Held next (raises error) session held = held

module _ {ℓ κ μ ν} {World : Type ℓ} {A : Type μ} {B : Type ν}
    {Starts Exits : Session World → Type κ} {Gives : A → Session World → Type κ}
    {Ends : B → Session World → Type κ} {first : Command World A} {rest : A → Command World B} where
  -- Commands in sequence.
  pub then-Triple :
      (one : Triple Starts Exits Gives first)
      (next : (value : A) → Triple (Gives value) Exits Ends (rest value))
      → Triple Starts Exits Ends (first >>= rest)
  then-Triple one next = record {
    runs = λ session starts.
        follow-Held next (first session).0 (first session).1 (one.runs session starts);
  }

module _ {ℓ κ μ} {World : Type ℓ} {A : Type μ} where
  pub if-Triple :
      {Starts Exits : Session World → Type κ} {Gives : A → Session World → Type κ} (test : Bool)
      {first second : Command World A}
      → Triple Starts Exits Gives first
      → Triple Starts Exits Gives second
      → Triple Starts Exits Gives (if test then first else second)
  if-Triple true one two = one
  if-Triple false one two = two

  -- Other exits and another end, which follow from the first.
  weaken-Held :
      {Exits Exits' : Session World → Type κ} {Gives Gives' : A → Session World → Type κ}
      → ((session : Session World) → Exits session → Exits' session)
      → ((value : A) (session : Session World) → Gives value session → Gives' value session)
      → (outcome : Ending A) (session : Session World) → Held Exits Gives (outcome, session)
      → Held Exits' Gives' (outcome, session)
  weaken-Held exits gives (goes_on value) session held = gives value session held
  weaken-Held exits gives returns session held = exits session held
  weaken-Held exits gives (raises error) session held = exits session held

  pub weaken-Triple :
      {Starts Exits Exits' : Session World → Type κ} {Gives Gives' : A → Session World → Type κ}
      {command : Command World A}
      → ((session : Session World) → Exits session → Exits' session)
      → ((value : A) (session : Session World) → Gives value session → Gives' value session)
      → Triple Starts Exits Gives command
      → Triple Starts Exits' Gives' command
  weaken-Triple {command = command} exits gives one = record {
    runs = λ session starts.
        weaken-Held exits gives (command session).0 (command session).1 (one.runs session starts);
  }

  pub give-Keeps : {Kept : Session World → Type κ} (value : A) → Keeps Kept (give value)
  give-Keeps value = record { runs = λ session kept. kept }

  pub stop-Keeps : {Kept : Session World → Type κ} → Keeps Kept (stop {A = A})
  stop-Keeps = record { runs = λ session kept. kept }

  pub uncaught-Keeps :
      {Kept : Session World → Type κ} (result : Result A) → Keeps Kept (uncaught result)
  uncaught-Keeps (ok value) = record { runs = λ session kept. kept }
  uncaught-Keeps (err error) = record { runs = λ session kept. kept }

-- A plugin with other targets, audits or capabilities: its forms are the same, and it is still
-- connected where it was.
abbrev pub SameForms {ℓ} : {World : Type ℓ} → Plugin World → Plugin World → Type ℓ
SameForms {World = World} before after =
    (after.active_forms ≡ before.active_forms)
    × ((bridge : InspectorBridge World)
        → before.live_bridge ≡ some bridge
        → after.live_bridge ≡ some bridge)

-- Properties that no message, target, audit or connection changes.
pub record Neutral {ℓ κ} {World : Type ℓ} (Kept : Session World → Type κ) : Type (ℓ ⊔ κ) where
  pub messages :
      (session : Session World) (sent : List String)
      → Kept session
      → Kept (record session { messages = sent })
  pub plugin :
      (session : Session World) (after : Plugin World)
      → SameForms session.plugin after
      → Kept session
      → Kept (record session { plugin = after })

module _ {ℓ κ μ} {World : Type ℓ} {A : Type μ} {Kept : Session World → Type κ}
    (neutral : Neutral Kept) where
  pub refuse-Keeps : (text : String) → Keeps Kept (refuse {A = A} text)
  refuse-Keeps text = record { runs = λ session kept. neutral.messages session _ kept }

module _ {ℓ κ} {World : Type ℓ} {Kept : Session World → Type κ} (neutral : Neutral Kept) where
  pub send_message-Keeps : (text : String) → Keeps Kept (send_message text)
  send_message-Keeps text = record { runs = λ session kept. neutral.messages session _ kept }

  pub send_all-Keeps : (texts : List String) → Keeps Kept (send_all texts)
  send_all-Keeps texts = record { runs = λ session kept. neutral.messages session _ kept }
