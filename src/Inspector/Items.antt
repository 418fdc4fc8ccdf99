-- ===== src/Inspector/Items.antt =====
-- `_handle_item`: `/bd item add` and `/bd item remove`.
use Prim.Native.String.{◌++◌}
use endstone_blockdata_api.Base.{
  ℕ, String, Bool, true, false, not, ◌&&◌, Option, none, some, List, [], ◌∷◌, ◌==◌, contains,
  if◌then◌else◌, ◌⊎◌, inl, inr, string_eq, nat_eq,
}
use endstone_blockdata_api.Base.Int.{ℤ, pos, leb_ℤ, ltb_ℤ}
use endstone_blockdata_api.Base.Lists.{length, take, drop}
use endstone_blockdata_api.Base.Texts.{has_char, texts}
use endstone_blockdata_api.Nbt.{Value, int, str, ItemNbt, compound, as_dict}
use endstone_blockdata_api.Nbt.Conversion.{to_bool, to_dict, get_key}
use endstone_blockdata_api.Model.{BlockLocation}
use endstone_blockdata_api.Inspector.Python.{get}
use endstone_blockdata_api.Inspector.Reading.{
  container_inventory, container_capacity, looks_like_container_block, status_text,
}
use endstone_blockdata_api.Inspector.Session.{InspectorPatch, Server, Sender}
use endstone_blockdata_api.Inspector.Command.{
  Command, ◌>>=◌, ◌>>◌, give, send_message, refuse, uncaught,
}
use endstone_blockdata_api.Inspector.Bridge.{
  number, position_text, require_bridge, capture_block, apply_patch, send_apply_failure,
}
use endstone_blockdata_api.Inspector.Targets.{
  argument, parse_non_negative_int, parse_explicit_target, selected_target,
}

-- What a command does to its slot.
pub data ItemChange : Type 0 where
  remove : ItemChange
  add : (item_id : String) (count : ℤ) (nbt : ItemNbt) → ItemChange

-- `_empty_patch`
unfoldable pub empty_inspector_patch : ItemNbt → ItemNbt → InspectorPatch
empty_inspector_patch location snapshot = record {
  location = location;
  expected_revision = get "revision" snapshot;
  state_updates = [];
  state_removals = [];
  nbt_updates = [];
  nbt_removals = [];
  inventory_updates = [];
  inventory_removals = [];
}

-- The patch of an item command.
unfoldable pub item_patch : ItemChange → ℤ → InspectorPatch → InspectorPatch
item_patch remove slot patch = record patch { inventory_removals = slot ∷ [] }
item_patch (add item_id count nbt) slot patch = record patch {
  inventory_updates =
      (slot, ("id", str item_id) ∷ ("count", int count) ∷ ("tag", compound nbt) ∷ []) ∷ [];
}

-- `/bd item remove` or `add`, with a position of its own or not: the numbers of arguments, and
-- the usage.
unfoldable pub expected_lengths : Bool → Bool → List ℕ
expected_lengths true true = 6 ∷ []
expected_lengths true false = 2 ∷ []
expected_lengths false true = 7 ∷ 8 ∷ 9 ∷ []
expected_lengths false false = 3 ∷ 4 ∷ 5 ∷ []

unfoldable pub item_usage : Bool → Bool → String
item_usage true true = "/bd item remove at <x> <y> <z> <slot>"
item_usage true false = "/bd item remove <slot>"
item_usage false true = "/bd item add at <x> <y> <z> <slot> <item_id> [count] [nbt_json]"
item_usage false false = "/bd item add <slot> <item_id> [count] [nbt_json]"

abbrev item_help : String
item_help =
    "§cUsage: /bd item add <slot> <item_id> [count] [nbt_json] or /bd item remove <slot> (add 'at <x> <y> <z>' for an explicit target)"

module _ {ℓ} {World : Type ℓ} (server : Server World) where
  unfoldable pub take_slot : Option ℤ → Command World ℤ
  take_slot none = refuse "§cSlot must be a non-negative integer."
  take_slot (some slot) = give slot

  -- `self._parse_non_negative_int(option_args[0]) or 0`, which must be positive
  unfoldable pub take_count : Option ℤ → Command World ℤ
  take_count none = refuse "§cItem count must be a positive integer."
  take_count (some count) =
      if ltb_ℤ count (pos 1) then refuse "§cItem count must be a positive integer." else give count

  unfoldable pub read_count : List String → Command World ℤ
  read_count [] = give (pos 1)
  read_count (count ∷ options) = take_count (parse_non_negative_int server.python count)

  unfoldable pub take_object : Option ItemNbt → Command World ItemNbt
  take_object none = refuse "§cNBT JSON must be an object."
  take_object (some nbt) = give nbt

  unfoldable pub take_nbt : String ⊎ Value → Command World ItemNbt
  take_nbt (inl message) = refuse ("§cFailed to parse NBT JSON: " ++ message)
  take_nbt (inr decoded) = take_object (as_dict decoded)

  unfoldable pub read_nbt : List String → Command World ItemNbt
  read_nbt (count ∷ nbt_json ∷ []) = take_nbt (server.python.loads nbt_json)
  read_nbt options = give []

  -- The change that the arguments past the slot ask for.
  unfoldable pub read_change : Bool → List String → Command World ItemChange
  read_change true args = give remove
  read_change false args = do
    count ← read_count (drop 1 args)
    nbt ← read_nbt (drop 1 args)
    give (
        add
          (if has_char 58 (argument 0 args)
            then argument 0 args
            else "minecraft:" ++ argument 0 args)
          count nbt)

  unfoldable pub take_inventory :
      BlockLocation → ItemNbt → Option (List ItemNbt) → Command World (List ItemNbt)
  take_inventory target snapshot (some inventory) = give inventory
  take_inventory target snapshot none = refuse (
      if looks_like_container_block server.python snapshot
      then texts (
          "§cContainer at "
          ∷ position_text server.python target
          ∷ " is unavailable: "
          ∷ status_text server.python snapshot
          ∷ "."
          ∷ [])
      else texts (
          "§cBlock at "
          ∷ position_text server.python target
          ∷ " is not a supported container."
          ∷ []))

  unfoldable pub check_capacity : ℤ → ℤ → Command World (Unit {0})
  check_capacity slot capacity =
      if leb_ℤ capacity slot
      then refuse (
          texts (
            "§cSlot "
            ∷ number server.python slot
            ∷ " is outside this container's capacity of "
            ∷ number server.python capacity
            ∷ "."
            ∷ []))
      else give tt

  unfoldable pub item_done : ItemChange → ℤ → BlockLocation → String
  item_done remove slot target = texts (
      "§aCleared live item in slot "
      ∷ number server.python slot
      ∷ " at "
      ∷ position_text server.python target
      ∷ "."
      ∷ [])
  item_done (add item_id count nbt) slot target = texts (
      "§aAdded "
      ∷ number server.python count
      ∷ "x "
      ∷ item_id
      ∷ " to live slot "
      ∷ number server.python slot
      ∷ " at "
      ∷ position_text server.python target
      ∷ "."
      ∷ [])

  -- What `_handle_item` and `_handle_state` say about the result of a write.
  unfoldable pub report_result : String → ItemNbt → Command World (Unit {0})
  report_result done result =
      if to_bool server.python.convert (get "ok" result)
      then send_message done
      else send_apply_failure server result

  -- The write, from a capture of the target that was taken before.
  unfoldable pub write_item : BlockLocation → ℤ → ItemChange → ItemNbt → Command World (Unit {0})
  write_item target slot change snapshot = do
    inventory ← take_inventory target snapshot (container_inventory server.python snapshot)
    check_capacity slot (container_capacity server.python snapshot inventory)
    location_value ← uncaught (get_key "location" snapshot)
    location ← uncaught (to_dict server.python.convert location_value)
    result ← apply_patch server (item_patch change slot (empty_inspector_patch location snapshot))
    report_result (item_done change slot target) result

  -- The target, the slot and the change of an item command.
  unfoldable pub read_request :
      Sender → Bool → Bool → List String → Command World (BlockLocation × ℤ × ItemChange)
  read_request sender removes explicit args = do
    target ←
        (if explicit
          then parse_explicit_target server.python sender (take 3 (drop 2 args))
              (item_usage removes explicit)
          else selected_target server.python sender)
    slot ←
        take_slot (parse_non_negative_int server.python (argument (if explicit then 5 else 1) args))
    change ← read_change removes (drop (if explicit then 6 else 2) args)
    give (target, slot, change)

  unfoldable pub run_item : Sender → Bool → Bool → List String → Command World (Unit {0})
  run_item sender removes explicit args =
      if contains (expected_lengths removes explicit) (length args)
      then (do
        request ← read_request sender removes explicit args
        bridge ← require_bridge server ("inventory" ∷ []) "apply"
        snapshot ← capture_block server request.0
        write_item request.0 request.1 request.2 snapshot)
      else refuse ("§cUsage: " ++ item_usage removes explicit)

  unfoldable pub handle_item : Sender → List String → Command World (Unit {0})
  handle_item sender [] = refuse item_help
  handle_item sender (action ∷ args) =
      let word = server.python.lower action in
      let explicit = not (length args == 0) && server.python.casefold (argument 0 args) == "at" in
      if word == "remove"
      then run_item sender true explicit (action ∷ args)
      else if word == "add"
      then run_item sender false explicit (action ∷ args)
      else refuse item_help
