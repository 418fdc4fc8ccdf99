-- ===== src/Inspector/Command.antt =====
-- Commands: they read and change a session, and may return early or raise. Every handler returns
-- True wherever it returns, so an early return is one outcome.
use mathlib.Core.List.{◌++◌ as append}
use endstone_blockdata_api.Base.{String, List, [], ◌∷◌, Result, ok, err, Error}
use endstone_blockdata_api.Inspector.Session.{Session}

pub data Ending {κ} (A : Type κ) : Type κ where
  goes_on : (value : A) → Ending A
  returns : Ending A
  raises : (error : Error) → Ending A

abbrev pub Command {ℓ κ} : Type ℓ → Type κ → Type (ℓ ⊔ κ)
Command World A = Session World → Ending A × Session World

module _ {ℓ} {World : Type ℓ} where
  -- What follows a command that goes on.
  abbrev pub follow {κ μ} :
      {A : Type κ} {B : Type μ} → (A → Command World B) → Ending A → Command World B
  follow then (goes_on value) session = then value session
  follow then returns session = (returns, session)
  follow then (raises error) session = (raises error, session)

  infixl 5 ◌>>=◌
  abbrev pub ◌>>=◌ {κ μ} :
      {A : Type κ} {B : Type μ} → Command World A → (A → Command World B) → Command World B
  ◌>>=◌ first then session = let (outcome, after) = first session in follow then outcome after

  infixl 5 ◌>>◌
  abbrev pub ◌>>◌ {κ μ} :
      {A : Type κ} {B : Type μ} → Command World A → Command World B → Command World B
  ◌>>◌ first second = first >>= λ _. second

  abbrev pub give {κ} : {A : Type κ} → A → Command World A
  give value session = (goes_on value, session)

  -- `return True`
  abbrev pub stop {κ} : {A : Type κ} → Command World A
  stop session = (returns, session)

  -- `sender.send_message(text)`
  abbrev pub send_message : String → Command World (Unit {0})
  send_message text session =
      (goes_on tt, record session { messages = append session.messages (text ∷ []) })

  abbrev pub send_all : List String → Command World (Unit {0})
  send_all texts session = (goes_on tt, record session { messages = append session.messages texts })

  -- A message, and `return True`
  abbrev pub refuse {κ} : {A : Type κ} → String → Command World A
  refuse text session = (returns, record session { messages = append session.messages (text ∷ []) })

  -- A call whose exception nothing catches.
  abbrev pub uncaught {κ} : {A : Type κ} → Result A → Command World A
  uncaught (ok value) session = (goes_on value, session)
  uncaught (err error) session = (raises error, session)
