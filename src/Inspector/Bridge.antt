-- ===== src/Inspector/Bridge.antt =====
-- How the inspector finds its bridge, and calls it.
use Prim.Native.String.{◌++◌}
use endstone_blockdata_api.Base.{
  String, Bool, false, not, Option, none, some, List, [], ◌∷◌, ◌==◌, if◌then◌else◌, Result, ok, err,
  string_eq,
}
use endstone_blockdata_api.Base.Int.{ℤ}
use endstone_blockdata_api.Base.Texts.{join}
use endstone_blockdata_api.Nbt.{Value, bool, int, str, ItemNbt}
use endstone_blockdata_api.Nbt.Conversion.{to_str, to_bool, get_or}
use endstone_blockdata_api.Model.{BlockLocation}
use endstone_blockdata_api.Inspector.Python.{Python, get}
use endstone_blockdata_api.Inspector.Session.{InspectorBridge, InspectorPatch, Server, Plugin}
use endstone_blockdata_api.Inspector.Command.{Command, ◌>>=◌, give, send_message, refuse}

-- An integer in an f-string, and `f"({x}, {y}, {z})"`
abbrev pub number : Python → ℤ → String
number python n = to_str python.convert (int n)

abbrev pub position_text : Python → BlockLocation → String
position_text python loc =
    "("
    ++ (number python loc.x
        ++ (", " ++ (number python loc.y ++ (", " ++ (number python loc.z ++ ")")))))

module _ {ℓ} {World : Type ℓ} (server : Server World) where
  -- What `_connect_bridge` finds: a bridge with its capabilities, or why there is none.
  pub data Connection : Type ℓ where
    connected : (bridge : InspectorBridge World) (capabilities : ItemNbt) → Connection
    unavailable : (reason : String) → Connection

  unfoldable pub with_capabilities : InspectorBridge World → Result ItemNbt → Connection
  with_capabilities bridge (err error) = unavailable (server.python.error_text error)
  with_capabilities bridge (ok capabilities) = connected bridge capabilities

  unfoldable pub when_available : InspectorBridge World → World → Result Value → Connection
  when_available bridge world (err error) = unavailable (server.python.error_text error)
  when_available bridge world (ok available) =
      if to_bool server.python.convert available
      then with_capabilities bridge (bridge.capabilities world)
      else unavailable "endstone:blockdata:v2 native service is not registered"

  unfoldable pub find_bridge : World → Connection
  find_bridge world = elim (server.import_live_bridge world) [
    | err error ↦ unavailable (server.python.error_text error)
    | ok bridge ↦ when_available bridge world (bridge.available world)
  ]

  unfoldable pub keep_connection : Connection → Plugin World → Plugin World
  keep_connection (connected bridge capabilities) plugin = record plugin {
    live_bridge = some bridge;
    native_capabilities = capabilities;
    bridge_error = "";
  }
  keep_connection (unavailable reason) plugin = record plugin {
    live_bridge = none;
    native_capabilities = [];
    bridge_error = reason;
  }

  unfoldable pub connect_bridge : World → Plugin World → Plugin World
  connect_bridge world plugin = keep_connection (find_bridge world) plugin

  -- The plugin that `on_enable` leaves; its log messages are left out.
  unfoldable pub on_enable : World → Plugin World
  on_enable world = connect_bridge world (record {
    selected_targets = [];
    audit_baselines = [];
    audit_logs = [];
    active_forms = [];
    live_bridge = none;
    native_capabilities = [];
    bridge_error = "native bridge was not initialized";
  })

  -- `if bridge is None: bridge = self._connect_bridge()`
  unfoldable pub connect_if_none :
      Option (InspectorBridge World) → World → Plugin World → Plugin World
  connect_if_none none world plugin = connect_bridge world plugin
  connect_if_none (some bridge) world plugin = plugin

  unfoldable pub reconnect : World → Plugin World → Plugin World
  reconnect world plugin = connect_if_none plugin.live_bridge world plugin

  unfoldable pub missing_capabilities : ItemNbt → List String → List String
  missing_capabilities capabilities [] = []
  missing_capabilities capabilities (name ∷ names) =
      let rest = missing_capabilities capabilities names in
      if to_bool server.python.convert (get_or name (bool false) capabilities)
      then rest
      else name ∷ rest

  unfoldable pub check_capabilities :
      List String → InspectorBridge World → Command World (InspectorBridge World)
  check_capabilities [] bridge session = give bridge session
  check_capabilities (name ∷ missing) bridge session =
      refuse
        ("§cNative adapter does not support required capability: " ++ join ", " (name ∷ missing))
        session

  unfoldable pub check_bridge :
      List String → String → Option (InspectorBridge World) → Command World (InspectorBridge World)
  check_bridge capabilities method none session =
      refuse ("§cNative BlockData service unavailable: " ++ session.plugin.bridge_error) session
  check_bridge capabilities method (some bridge) session =
      if not (bridge.has_method method)
      then refuse
          ("§cInstalled BlockData bridge does not expose '"
            ++ (method ++ "'. Install the matching native API package."))
          session
      else check_capabilities (missing_capabilities session.plugin.native_capabilities capabilities)
          bridge session

  -- `_require_bridge`, which names a method at every call
  unfoldable pub require_bridge : List String → String → Command World (InspectorBridge World)
  require_bridge capabilities method session =
      let plugin = reconnect session.world session.plugin in
      check_bridge capabilities method plugin.live_bridge (record session { plugin = plugin })

  unfoldable pub take_capture : BlockLocation → Result (Option ItemNbt) → Command World ItemNbt
  take_capture loc (err error) =
      refuse ("§cNative capture failed: " ++ server.python.error_text error)
  take_capture loc (ok none) =
      refuse ("§cNative service could not capture " ++ (position_text server.python loc ++ "."))
  take_capture loc (ok (some snapshot)) = give snapshot

  -- `_capture`
  unfoldable pub capture_block : BlockLocation → Command World ItemNbt
  capture_block loc session =
      (do
        bridge ← require_bridge [] "capture"
        λ asking. take_capture loc (bridge.capture loc asking.world) asking)
        session

  unfoldable pub take_result : Result ItemNbt → Command World ItemNbt
  take_result (err error) = refuse ("§cNative apply failed: " ++ server.python.error_text error)
  take_result (ok result) = give result

  -- The call of the bridge's `apply`, which may change the world.
  unfoldable pub call_apply : InspectorBridge World → InspectorPatch → Command World ItemNbt
  call_apply bridge patch session =
      let (result, after) = bridge.apply patch "fail_if_changed" session.world in
      take_result result (record session { world = after })

  -- `_apply`
  unfoldable pub apply_patch : InspectorPatch → Command World ItemNbt
  apply_patch patch session =
      (do bridge ← require_bridge [] "apply"; call_apply bridge patch) session

  unfoldable pub is_conflict : Value → Bool
  is_conflict (str status) = status == "conflict"
  is_conflict _ = false

  -- `_send_apply_failure`
  unfoldable pub send_apply_failure : ItemNbt → Command World (Unit {0})
  send_apply_failure result =
      if is_conflict (get "status" result)
      then send_message
          "§cThe block changed before the write was applied. Nothing was overwritten; inspect it and retry the command."
      else send_message (
          "§cNative write failed: "
          ++ to_str server.python.convert (get_or "message" (str "unknown error") result))
