-- ===== src/Inspector/Locate.antt =====
-- `_handle_locate`: `/bd locate`.
use Prim.Native.String.{◌++◌}
use endstone_blockdata_api.Base.{ℕ, ◌+◌, String, List, [], ◌∷◌, map, Result, ok, err, string_eq}
use endstone_blockdata_api.Base.Int.{ℤ, pos}
use endstone_blockdata_api.Base.Lists.{length, take}
use endstone_blockdata_api.Base.Sort.{sort}
use endstone_blockdata_api.Base.Texts.{texts}
use endstone_blockdata_api.Nbt.{int, str, ItemNbt}
use endstone_blockdata_api.Nbt.Conversion.{to_int, to_str, to_dict, get_or, get_key}
use endstone_blockdata_api.Model.{BlockLocation}
use endstone_blockdata_api.Inspector.Python.{get}
use endstone_blockdata_api.Inspector.Reading.{container_inventory, status_text}
use endstone_blockdata_api.Inspector.Session.{InspectorBridge, Server, Sender}
use endstone_blockdata_api.Inspector.Command.{
  Command, ◌>>=◌, ◌>>◌, give, send_message, refuse, uncaught,
}
use endstone_blockdata_api.Inspector.Bridge.{number, position_text, require_bridge}
use endstone_blockdata_api.Inspector.Targets.{sender_position, remember_target}
use endstone_blockdata_api.Inspector.Found.{
  clamp_radius, low_corner, high_corner, squared, nearer, measured_snapshot, inventory_or_empty,
  containers_in, actor_capture_misses, dict_or_empty, container_text,
}

module _ {ℓ} {World : Type ℓ} (server : Server World) where
  -- `distance_squared`, with each coordinate of the center where the location has none
  unfoldable pub distance_squared : BlockLocation → ItemNbt → Command World (ℕ × ItemNbt)
  distance_squared center snapshot = do
    location ← uncaught (dict_or_empty server.python (get "location" snapshot))
    x ← uncaught (to_int server.python.convert (get_or "x" (int center.x) location))
    y ← uncaught (to_int server.python.convert (get_or "y" (int center.y) location))
    z ← uncaught (to_int server.python.convert (get_or "z" (int center.z) location))
    give (squared x center.x + squared y center.y + squared z center.z, snapshot)

  unfoldable pub with_distances : BlockLocation → List ItemNbt → Command World (List (ℕ × ItemNbt))
  with_distances center [] = give []
  with_distances center (snapshot ∷ snapshots) = do
    first ← distance_squared center snapshot
    rest ← with_distances center snapshots
    give (first ∷ rest)

  -- `containers.sort(key=distance_squared)`
  unfoldable pub sort_by_distance : BlockLocation → List ItemNbt → Command World (List ItemNbt)
  sort_by_distance center containers = do
    measured ← with_distances center containers
    give (map measured_snapshot (sort nearer measured))

  unfoldable pub show_container : ItemNbt → Command World (Unit {0})
  show_container snapshot = do
    entity ← uncaught (to_dict server.python.convert (get "block_entity" snapshot))
    location_value ← uncaught (get_key "location" snapshot)
    location ← uncaught (to_dict server.python.convert location_value)
    nbt ← uncaught (dict_or_empty server.python (get "nbt" entity))
    x ← uncaught (get_key "x" location)
    y ← uncaught (get_key "y" location)
    z ← uncaught (get_key "z" location)
    send_message (
        container_text server.python snapshot location nbt
          (inventory_or_empty (container_inventory server.python snapshot)))

  unfoldable pub show_containers : List ItemNbt → Command World (Unit {0})
  show_containers [] = give tt
  show_containers (snapshot ∷ snapshots) = do show_container snapshot; show_containers snapshots

  unfoldable pub show_miss : ItemNbt → Command World (Unit {0})
  show_miss snapshot = do
    location ← uncaught (dict_or_empty server.python (get "location" snapshot))
    send_message (
        texts (
          "  §c- "
          ∷ to_str server.python.convert (get_or "type" (str "unknown") snapshot)
          ∷ " at ("
          ∷ to_str server.python.convert (get_or "x" (str "?") location)
          ∷ ", "
          ∷ to_str server.python.convert (get_or "y" (str "?") location)
          ∷ ", "
          ∷ to_str server.python.convert (get_or "z" (str "?") location)
          ∷ ") status="
          ∷ status_text server.python snapshot
          ∷ []))

  unfoldable pub show_misses : List ItemNbt → Command World (Unit {0})
  show_misses [] = give tt
  show_misses (snapshot ∷ snapshots) = do show_miss snapshot; show_misses snapshots

  -- The messages on the blocks that were missed, if there are any.
  unfoldable pub report_misses : List ItemNbt → Command World (Unit {0})
  report_misses [] = give tt
  report_misses (snapshot ∷ snapshots) = do
    send_message (
        texts (
          "§cContainer actor/inventory capture missed for "
          ∷ number server.python (pos (length (snapshot ∷ snapshots)))
          ∷ " candidate block(s):"
          ∷ []))
    show_misses (take 5 (snapshot ∷ snapshots))

  unfoldable pub found_text : ℤ → List ItemNbt → String
  found_text radius [] = texts (
      "§cNo supported container actors found within radius "
      ∷ number server.python radius
      ∷ "."
      ∷ [])
  found_text radius (snapshot ∷ snapshots) = texts (
      "§aFound "
      ∷ number server.python (pos (length (snapshot ∷ snapshots)))
      ∷ " supported container actors:"
      ∷ [])

  -- The nearest container is the sender's target from now on.
  unfoldable pub select_nearest : Sender → List ItemNbt → Command World (Unit {0})
  select_nearest sender [] = give tt
  select_nearest sender (snapshot ∷ snapshots) = do
    target ← remember_target server.python sender snapshot
    send_message (
        texts (
          "§aSelected nearest container "
          ∷ position_text server.python target
          ∷ " in "
          ∷ target.dimension
          ∷ " as your active target."
          ∷ []))

  unfoldable pub take_radius : Result ℤ → Command World ℤ
  take_radius (err _) = refuse "§cRadius must be an integer from 0 to 12."
  take_radius (ok radius) = give (clamp_radius radius)

  unfoldable pub take_region : Result (List ItemNbt) → Command World (List ItemNbt)
  take_region (err error) =
      refuse ("§cNative region capture failed: " ++ server.python.error_text error)
  take_region (ok snapshots) = give snapshots

  unfoldable pub scan : InspectorBridge World → BlockLocation → ℤ → Command World (List ItemNbt)
  scan bridge center radius session =
      take_region
        (bridge.capture_region (low_corner center radius) (high_corner center radius) session.world)
        session

  unfoldable pub report_region :
      Sender → BlockLocation → ℤ → List ItemNbt → Command World (Unit {0})
  report_region sender center radius snapshots = do
    containers ← sort_by_distance center (containers_in server.python snapshots)
    send_message (found_text radius containers)
    show_containers (take 10 containers)
    report_misses (actor_capture_misses server.python snapshots)
    select_nearest sender containers

  unfoldable pub locate_within : Sender → ℤ → Command World (Unit {0})
  locate_within sender radius = do
    bridge ← require_bridge server ("block_entity_nbt" ∷ []) "capture_region"
    center ← sender_position server.python sender
    send_message (
        texts (
          "§eScanning live blocks around "
          ∷ position_text server.python center
          ∷ " within radius "
          ∷ number server.python radius
          ∷ "..."
          ∷ []))
    snapshots ← scan bridge center radius
    report_region sender center radius snapshots

  unfoldable pub handle_locate : Sender → List String → Command World (Unit {0})
  handle_locate sender [] = locate_within sender (pos 5)
  handle_locate sender (radius ∷ []) = do
    parsed ← take_radius (server.python.convert.int_of_text radius)
    locate_within sender parsed
  handle_locate sender args = refuse "§cUsage: /bd locate [radius]"
