-- ===== src/Inspector/States.antt =====
-- `_handle_state`: `/bd state set`.
use endstone_blockdata_api.Base.{
  String, true, false, List, [], ◌∷◌, ◌==◌, contains, if◌then◌else◌, ok, err, string_eq, nat_eq,
}
use endstone_blockdata_api.Base.Int.{pos}
use endstone_blockdata_api.Base.Lists.{length, drop}
use endstone_blockdata_api.Base.Texts.{texts}
use endstone_blockdata_api.Nbt.{Value, bool, int, str, ItemNbt}
use endstone_blockdata_api.Nbt.Conversion.{to_str, to_dict, get_or, get_key}
use endstone_blockdata_api.Model.{BlockLocation}
use endstone_blockdata_api.Inspector.Python.{Python}
use endstone_blockdata_api.Inspector.Session.{InspectorPatch, Server, Sender}
use endstone_blockdata_api.Inspector.Command.{Command, ◌>>=◌, refuse, uncaught}
use endstone_blockdata_api.Inspector.Bridge.{
  position_text, require_bridge, capture_block, apply_patch,
}
use endstone_blockdata_api.Inspector.Targets.{argument, resolve_target}
use endstone_blockdata_api.Inspector.Items.{empty_inspector_patch, report_result}

-- `_parse_state_value`
unfoldable pub parse_state_value : Python → String → Value
parse_state_value python value =
    let lowered = python.casefold value in
    if lowered == "true"
    then bool true
    else if lowered == "false"
    then bool false
    else elim (python.convert.int_of_text value) as (λ _. Value) [
      | ok n ↦ int n
      | err _ ↦ str value
    ]

unfoldable pub state_patch : String → Value → InspectorPatch → InspectorPatch
state_patch name value patch = record patch { state_updates = (name, value) ∷ [] }

module _ {ℓ} {World : Type ℓ} (server : Server World) where
  unfoldable pub state_done : String → Value → BlockLocation → ItemNbt → String
  state_done name value target result = texts (
      "§aSet live '"
      ∷ name
      ∷ "' to '"
      ∷ to_str server.python.convert value
      ∷ "' at "
      ∷ position_text server.python target
      ∷ ". New revision: "
      ∷ to_str server.python.convert (get_or "resulting_revision" (int (pos 0)) result)
      ∷ [])

  unfoldable pub write_state : BlockLocation → String → Value → ItemNbt → Command World (Unit {0})
  write_state target name value snapshot = do
    location_value ← uncaught (get_key "location" snapshot)
    location ← uncaught (to_dict server.python.convert location_value)
    result ← apply_patch server (state_patch name value (empty_inspector_patch location snapshot))
    report_result server (state_done name value target result) result

  unfoldable pub run_state : Sender → List String → Command World (Unit {0})
  run_state sender args = do
    target ←
        resolve_target server.python sender (drop 3 args)
          "/bd state set <property_name> <value> [<x> <y> <z>]"
    bridge ← require_bridge server ("block_writes" ∷ []) "apply"
    snapshot ← capture_block server target
    write_state target (argument 1 args) (parse_state_value server.python (argument 2 args))
        snapshot

  unfoldable pub handle_state : Sender → List String → Command World (Unit {0})
  handle_state sender args =
      if contains (3 ∷ 6 ∷ []) (length args)
      then (if server.python.lower (argument 0 args) == "set"
          then run_state sender args
          else refuse "§cUsage: /bd state set <property_name> <value> [x y z]")
      else refuse "§cUsage: /bd state set <property_name> <value> [x y z]"
