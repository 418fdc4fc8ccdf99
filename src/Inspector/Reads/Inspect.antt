-- ===== src/Inspector/Reads/Inspect.antt =====
-- `/bd inspect` keeps what is neutral.
use endstone_blockdata_api.Base.{
  String, Bool, true, false, Option, none, some, List, [], ◌∷◌, string_eq,
}
use endstone_blockdata_api.Nbt.{ItemNbt}
use endstone_blockdata_api.Nbt.Conversion.{to_bool, to_dict}
use endstone_blockdata_api.Model.{BlockLocation}
use endstone_blockdata_api.Inspector.Python.{get}
use endstone_blockdata_api.Inspector.Reading.{container_inventory, occupied_inventory}
use endstone_blockdata_api.Inspector.Session.{Server, Session, Sender}
use endstone_blockdata_api.Inspector.Triples.{
  Keeps, then-Triple, if-Triple, give-Keeps, uncaught-Keeps, Neutral, refuse-Keeps,
  send_message-Keeps, send_all-Keeps,
}
use endstone_blockdata_api.Inspector.Reads.{capture_block-Keeps}
use endstone_blockdata_api.Inspector.Reads.Targets.{resolve_target-Keeps, remember_target-Keeps}
use endstone_blockdata_api.Inspector.Found.{dict_or_empty}
use endstone_blockdata_api.Inspector.Summary.{storage_item_summary_lines}
use endstone_blockdata_api.Inspector.Shelves.{shelf_diagnostic_lines}
use endstone_blockdata_api.Inspector.Inspect.{
  entity_lines, no_entity_text, heading_lines, states_text, occupied_lines, more_line,
  summary_block, show_occupied, select_explicit, show_inventory, show_entity, show_snapshot,
  inspect_target, handle_inspect,
}

module _ {World : Type 0} (server : Server World) {Kept : Session World → Type 0}
    (neutral : Neutral Kept) where
  show_occupied-Keeps :
      (snapshot : ItemNbt) (inventory occupied : List ItemNbt)
      → Keeps Kept (show_occupied server snapshot inventory occupied)
  unfolding show_occupied
  show_occupied-Keeps snapshot inventory occupied = then-Triple (send_message-Keeps neutral _) (λ _.
      then-Triple (send_all-Keeps neutral (occupied_lines server.python occupied)) (λ _.
        then-Triple (send_all-Keeps neutral (more_line server.python occupied)) (λ _.
          send_all-Keeps neutral
            (summary_block server.python (storage_item_summary_lines server.python occupied)))))

  select_explicit-Keeps :
      (sender : Sender) (explicit : Bool) (snapshot : ItemNbt)
      → Keeps Kept (select_explicit server sender explicit snapshot)
  unfolding select_explicit
  select_explicit-Keeps sender false snapshot = give-Keeps tt
  select_explicit-Keeps sender true snapshot =
      then-Triple (remember_target-Keeps server.python neutral sender snapshot)
        (λ target. send_message-Keeps neutral _)

  show_inventory-Keeps :
      (sender : Sender) (explicit : Bool) (snapshot : ItemNbt) (inventory : Option (List ItemNbt))
      → Keeps Kept (show_inventory server sender explicit snapshot inventory)
  unfolding show_inventory
  show_inventory-Keeps sender explicit snapshot none = refuse-Keeps neutral _
  show_inventory-Keeps sender explicit snapshot (some inventory) =
      then-Triple
        (show_occupied-Keeps snapshot inventory (occupied_inventory server.python inventory))
        (λ _. select_explicit-Keeps sender explicit snapshot)

  show_entity-Keeps :
      (sender : Sender) (explicit : Bool) (snapshot : ItemNbt)
      → Keeps Kept (show_entity server sender explicit snapshot)
  unfolding show_entity
  show_entity-Keeps sender explicit snapshot =
      if-Triple (to_bool server.python.convert (get "block_entity" snapshot))
        (then-Triple (uncaught-Keeps (to_dict server.python.convert (get "block_entity" snapshot)))
          (λ entity. then-Triple (send_all-Keeps neutral (entity_lines server.python entity)) (λ _.
            show_inventory-Keeps sender explicit snapshot
              (container_inventory server.python snapshot))))
        (refuse-Keeps neutral (no_entity_text server.python snapshot))

  show_snapshot-Keeps :
      (sender : Sender) (explicit : Bool) (target : BlockLocation) (snapshot : ItemNbt)
      → Keeps Kept (show_snapshot server sender explicit target snapshot)
  unfolding show_snapshot
  show_snapshot-Keeps sender explicit target snapshot =
      then-Triple (send_all-Keeps neutral (heading_lines server.python target snapshot)) (λ _.
        then-Triple (uncaught-Keeps (dict_or_empty server.python (get "states" snapshot)))
          (λ states. then-Triple (send_all-Keeps neutral (states_text server.python states)) (λ _.
            then-Triple (send_all-Keeps neutral (shelf_diagnostic_lines server.python snapshot))
              (λ _. show_entity-Keeps sender explicit snapshot))))

  inspect_target-Keeps :
      (sender : Sender) (explicit : Bool) (args : List String)
      → Keeps Kept (inspect_target server sender explicit args)
  unfolding inspect_target
  inspect_target-Keeps sender explicit args =
      then-Triple (resolve_target-Keeps server.python neutral sender args _) (λ target.
        then-Triple (capture_block-Keeps server neutral target)
          (λ snapshot. show_snapshot-Keeps sender explicit target snapshot))

  pub handle_inspect-Keeps :
      (sender : Sender) (args : List String) → Keeps Kept (handle_inspect server sender args)
  unfolding handle_inspect
  handle_inspect-Keeps sender [] = inspect_target-Keeps sender false []
  handle_inspect-Keeps sender (arg ∷ args) = inspect_target-Keeps sender true (arg ∷ args)
