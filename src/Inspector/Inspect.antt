-- ===== src/Inspector/Inspect.antt =====
-- `_handle_inspect`: `/bd inspect`.
use Prim.Native.String.{◌++◌, count}
use endstone_blockdata_api.Base.{
  ℕ, ◌-◌, String, Bool, true, false, Option, none, some, List, [], ◌∷◌, map, ltb, leb,
  if◌then◌else◌, string_eq,
}
use endstone_blockdata_api.Base.Int.{pos}
use endstone_blockdata_api.Base.Lists.{length, take}
use endstone_blockdata_api.Base.Texts.{texts, take_chars}
use endstone_blockdata_api.Nbt.{Value, int, str, ItemNbt, compound}
use endstone_blockdata_api.Nbt.Conversion.{to_str, to_bool, to_dict, get_or}
use endstone_blockdata_api.Model.{BlockLocation}
use endstone_blockdata_api.Inspector.Python.{Python, get}
use endstone_blockdata_api.Inspector.Reading.{
  container_inventory, container_capacity, occupied_inventory, item_preview,
  looks_like_container_block, status_text,
}
use endstone_blockdata_api.Inspector.Summary.{storage_item_summary_lines}
use endstone_blockdata_api.Inspector.Shelves.{shelf_diagnostic_lines}
use endstone_blockdata_api.Inspector.Session.{Server, Sender}
use endstone_blockdata_api.Inspector.Command.{
  Command, ◌>>=◌, ◌>>◌, give, send_message, send_all, refuse, uncaught,
}
use endstone_blockdata_api.Inspector.Bridge.{number, position_text, capture_block}
use endstone_blockdata_api.Inspector.Targets.{resolve_target, remember_target}
use endstone_blockdata_api.Inspector.Found.{dict_or_empty}

abbrev pub max_canonical_nbt_preview_chars : ℕ
max_canonical_nbt_preview_chars = 768

-- A preview of a text: the shown text, the number of characters of all, and whether it was cut.
pub record Preview : Type 0 where
  pub shown : String
  pub total : ℕ
  pub truncated : Bool

module _ (python : Python) where
  abbrev pub preview_marker : ℕ → String
  preview_marker total = "... [TRUNCATED; " ++ (number python (pos total) ++ " chars total]")

  unfoldable pub preview_of : String → Preview
  preview_of rendered =
      let total = count rendered in
      let marker = preview_marker total in
      if leb total max_canonical_nbt_preview_chars
      then record { shown = rendered; total = total; truncated = false }
      else record {
        shown = take_chars (max_canonical_nbt_preview_chars - count marker) rendered ++ marker;
        total = total;
        truncated = true;
      }

  -- `value or {}`
  unfoldable pub or_empty_compound : Value → Value
  or_empty_compound v = if to_bool python.convert v then v else compound []

  unfoldable pub canonical_nbt_preview : Value → Preview
  canonical_nbt_preview nbt = preview_of (python.dumps_compact (or_empty_compound nbt))

  unfoldable pub state_lines : ItemNbt → List String
  state_lines [] = []
  state_lines ((name, value) ∷ states) =
      texts ("  §8- §f" ∷ name ∷ " = §b" ∷ to_str python.convert value ∷ []) ∷ state_lines states

  unfoldable pub states_text : ItemNbt → List String
  states_text [] = "§7Block State Properties: §oNone" ∷ []
  states_text (state ∷ states) = "§7Block State Properties:" ∷ state_lines (state ∷ states)

  unfoldable pub heading_lines : BlockLocation → ItemNbt → List String
  heading_lines target snapshot =
      texts (
        "§e=== Live Block at "
        ∷ position_text python target
        ∷ " in "
        ∷ target.dimension
        ∷ " ==="
        ∷ [])
      ∷ texts (
          "§7Block Type: §f"
          ∷ to_str python.convert (get_or "type" (str "unknown") snapshot)
          ∷ " §7(Runtime ID: §f"
          ∷ to_str python.convert (get_or "runtime_id" (int (pos 0)) snapshot)
          ∷ "§7)"
          ∷ [])
      ∷ ("§7Revision: §f" ++ to_str python.convert (get_or "revision" (int (pos 0)) snapshot))
      ∷ []

  -- What is said of a block that has no block entity.
  unfoldable pub no_entity_text : ItemNbt → String
  no_entity_text snapshot =
      if looks_like_container_block python snapshot
      then "§cContainer block detected, but its block actor/inventory was not captured. Status: "
        ++ status_text python snapshot
      else "§7Block Entity / NBT: §oNone (standard block)"

  unfoldable pub preview_line : Preview → String
  preview_line preview = texts (
      "§7Canonical NBT ("
      ∷ number python (pos preview.total)
      ∷ " chars"
      ∷ (if preview.truncated then "; preview truncated" else "")
      ∷ "): §f"
      ∷ preview.shown
      ∷ [])

  -- The lines on the block entity: its type, and a preview of its NBT.
  unfoldable pub entity_lines : ItemNbt → List String
  entity_lines entity =
      ("§7Block Entity: §a" ++ to_str python.convert (get_or "type" (str "unknown") entity))
      ∷ preview_line (canonical_nbt_preview (get "nbt" entity))
      ∷ []

  abbrev pub occupied_line : ItemNbt → String
  occupied_line slot = "  §e- §f" ++ item_preview python slot

  unfoldable pub more_line : List ItemNbt → List String
  more_line occupied =
      if ltb 12 (length occupied)
      then texts (
          "  §7... and " ∷ number python (pos (length occupied - 12)) ∷ " more occupied slots" ∷ [])
        ∷ []
      else []

  unfoldable pub occupied_lines : List ItemNbt → List String
  occupied_lines [] = "§7Occupied Contents: §oEmpty" ∷ []
  occupied_lines (slot ∷ slots) =
      "§7Occupied Contents:" ∷ map occupied_line (take 12 (slot ∷ slots))

  unfoldable pub summary_block : List String → List String
  summary_block [] = []
  summary_block (line ∷ lines) = "Bundle / Storage Item Contents:" ∷ line ∷ lines

  abbrev pub capacity_line : ItemNbt → List ItemNbt → List ItemNbt → String
  capacity_line snapshot inventory occupied = texts (
      "§7Container Capacity: §b"
      ∷ number python (container_capacity python snapshot inventory)
      ∷ " §7Occupied: §b"
      ∷ number python (pos (length occupied))
      ∷ [])

module _ {ℓ} {World : Type ℓ} (server : Server World) where
  unfoldable pub show_occupied : ItemNbt → List ItemNbt → List ItemNbt → Command World (Unit {0})
  show_occupied snapshot inventory occupied = do
    send_message (capacity_line server.python snapshot inventory occupied)
    send_all (occupied_lines server.python occupied)
    send_all (more_line server.python occupied)
    send_all (summary_block server.python (storage_item_summary_lines server.python occupied))

  -- An explicit target is the sender's target from now on.
  unfoldable pub select_explicit : Sender → Bool → ItemNbt → Command World (Unit {0})
  select_explicit sender false snapshot = give tt
  select_explicit sender true snapshot = do
    target ← remember_target server.python sender snapshot
    send_message "§aSelected this container as your active target."

  unfoldable pub show_inventory :
      Sender → Bool → ItemNbt → Option (List ItemNbt) → Command World (Unit {0})
  show_inventory sender explicit snapshot none =
      refuse "§7Container Inventory: §oNot a supported container"
  show_inventory sender explicit snapshot (some inventory) = do
    show_occupied snapshot inventory (occupied_inventory server.python inventory)
    select_explicit sender explicit snapshot

  unfoldable pub show_entity : Sender → Bool → ItemNbt → Command World (Unit {0})
  show_entity sender explicit snapshot =
      if to_bool server.python.convert (get "block_entity" snapshot)
      then (do
        entity ← uncaught (to_dict server.python.convert (get "block_entity" snapshot))
        send_all (entity_lines server.python entity)
        show_inventory sender explicit snapshot (container_inventory server.python snapshot))
      else refuse (no_entity_text server.python snapshot)

  unfoldable pub show_snapshot : Sender → Bool → BlockLocation → ItemNbt → Command World (Unit {0})
  show_snapshot sender explicit target snapshot = do
    send_all (heading_lines server.python target snapshot)
    states ← uncaught (dict_or_empty server.python (get "states" snapshot))
    send_all (states_text server.python states)
    send_all (shelf_diagnostic_lines server.python snapshot)
    show_entity sender explicit snapshot

  unfoldable pub inspect_target : Sender → Bool → List String → Command World (Unit {0})
  inspect_target sender explicit args = do
    target ← resolve_target server.python sender args "/bd inspect [<x> <y> <z>]"
    snapshot ← capture_block server target
    show_snapshot sender explicit target snapshot

  unfoldable pub handle_inspect : Sender → List String → Command World (Unit {0})
  handle_inspect sender [] = inspect_target sender false []
  handle_inspect sender (arg ∷ args) = inspect_target sender true (arg ∷ args)
