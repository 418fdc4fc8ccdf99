-- ===== src/Inspector/Events.antt =====
-- What happens to the inspector's session: commands, answers to its forms, players that leave or
-- die, the plugin that is disabled, and changes of the world by others.
use endstone_blockdata_api.Base.{String, List, [], ◌∷◌}
use endstone_blockdata_api.Inspector.Session.{Server, Session, Sender, SentForm}
use endstone_blockdata_api.Inspector.Forms.{clear_form_lock, on_disable}
use endstone_blockdata_api.Inspector.Dispatch.{dispatch, on_submit, on_close, Submission}

pub data Event (World : Type 0) : Type 0 where
  command : (sender : Sender) (args : List String) → Event World
  submit : (sender : Sender) (form : SentForm) (submission : Submission) → Event World
  dismiss : (sender : Sender) (form : SentForm) → Event World
  leave : (sender : Sender) → Event World
  disable : Event World
  elsewhere : (after : World) → Event World

module _ {World : Type 0} (server : Server World) where
  -- `on_player_quit` and `on_player_death` do the same.
  unfoldable pub handle : Event World → Session World → Session World
  handle (command sender args) session = (dispatch server sender args session).1
  handle (submit sender form submission) session =
      (on_submit server sender form submission session).1
  handle (dismiss sender form) session = (on_close server sender form session).1
  handle (leave sender) session = (clear_form_lock server.python sender session).1
  handle disable session = (on_disable session).1
  handle (elsewhere after) session = record session { world = after }

  unfoldable pub handle_all : List (Event World) → Session World → Session World
  handle_all [] session = session
  handle_all (event ∷ events) session = handle_all events (handle event session)
