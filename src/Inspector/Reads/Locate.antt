-- ===== src/Inspector/Reads/Locate.antt =====
-- `/bd locate` keeps what is neutral.
use endstone_blockdata_api.Base.{String, List, [], ◌∷◌, Result, ok, err, string_eq}
use endstone_blockdata_api.Base.Int.{ℤ, pos}
use endstone_blockdata_api.Base.Lists.{take}
use endstone_blockdata_api.Nbt.{int, ItemNbt}
use endstone_blockdata_api.Nbt.Conversion.{to_int, to_dict, get_or, get_key}
use endstone_blockdata_api.Model.{BlockLocation}
use endstone_blockdata_api.Inspector.Python.{get}
use endstone_blockdata_api.Inspector.Session.{InspectorBridge, Server, Session, Sender}
use endstone_blockdata_api.Inspector.Triples.{
  Keeps, then-Triple, give-Keeps, uncaught-Keeps, Neutral, refuse-Keeps, send_message-Keeps,
}
use endstone_blockdata_api.Inspector.Reads.{require_bridge-Keeps}
use endstone_blockdata_api.Inspector.Reads.Targets.{remember_target-Keeps, sender_position-Keeps}
use endstone_blockdata_api.Inspector.Found.{
  dict_or_empty, containers_in, actor_capture_misses, low_corner, high_corner,
}
use endstone_blockdata_api.Inspector.Locate.{
  distance_squared, with_distances, sort_by_distance, show_container, show_containers, show_miss,
  show_misses, report_misses, select_nearest, take_radius, take_region, scan, report_region,
  locate_within, handle_locate,
}

module _ {World : Type 0} (server : Server World) {Kept : Session World → Type 0}
    (neutral : Neutral Kept) where
  distance_squared-Keeps :
      (center : BlockLocation) (snapshot : ItemNbt)
      → Keeps Kept (distance_squared server center snapshot)
  unfolding distance_squared
  distance_squared-Keeps center snapshot =
      then-Triple (uncaught-Keeps (dict_or_empty server.python (get "location" snapshot))) (λ d.
        then-Triple (uncaught-Keeps (to_int server.python.convert (get_or "x" (int center.x) d)))
          (λ x.
            then-Triple
              (uncaught-Keeps (to_int server.python.convert (get_or "y" (int center.y) d)))
              (λ y.
                then-Triple
                  (uncaught-Keeps (to_int server.python.convert (get_or "z" (int center.z) d)))
                  (λ z. give-Keeps _))))

  with_distances-Keeps :
      (center : BlockLocation) (snapshots : List ItemNbt)
      → Keeps Kept (with_distances server center snapshots)
  unfolding with_distances
  with_distances-Keeps center [] = give-Keeps []
  with_distances-Keeps center (snapshot ∷ snapshots) =
      then-Triple (distance_squared-Keeps center snapshot)
        (λ first. then-Triple (with_distances-Keeps center snapshots) (λ rest. give-Keeps _))

  sort_by_distance-Keeps :
      (center : BlockLocation) (containers : List ItemNbt)
      → Keeps Kept (sort_by_distance server center containers)
  unfolding sort_by_distance
  sort_by_distance-Keeps center containers =
      then-Triple (with_distances-Keeps center containers) (λ measured. give-Keeps _)

  show_container-Keeps : (snapshot : ItemNbt) → Keeps Kept (show_container server snapshot)
  unfolding show_container
  show_container-Keeps snapshot =
      then-Triple (uncaught-Keeps (to_dict server.python.convert (get "block_entity" snapshot)))
        (λ entity. then-Triple (uncaught-Keeps (get_key "location" snapshot)) (λ value.
          then-Triple (uncaught-Keeps (to_dict server.python.convert value)) (λ location.
            then-Triple (uncaught-Keeps (dict_or_empty server.python (get "nbt" entity))) (λ nbt.
              then-Triple (uncaught-Keeps (get_key "x" location)) (λ x.
                then-Triple (uncaught-Keeps (get_key "y" location)) (λ y.
                  then-Triple (uncaught-Keeps (get_key "z" location))
                    (λ z. send_message-Keeps neutral _)))))))

  show_containers-Keeps : (snapshots : List ItemNbt) → Keeps Kept (show_containers server snapshots)
  unfolding show_containers
  show_containers-Keeps [] = give-Keeps tt
  show_containers-Keeps (snapshot ∷ snapshots) =
      then-Triple (show_container-Keeps snapshot) (λ _. show_containers-Keeps snapshots)

  show_miss-Keeps : (snapshot : ItemNbt) → Keeps Kept (show_miss server snapshot)
  unfolding show_miss
  show_miss-Keeps snapshot =
      then-Triple (uncaught-Keeps (dict_or_empty server.python (get "location" snapshot)))
        (λ location. send_message-Keeps neutral _)

  show_misses-Keeps : (snapshots : List ItemNbt) → Keeps Kept (show_misses server snapshots)
  unfolding show_misses
  show_misses-Keeps [] = give-Keeps tt
  show_misses-Keeps (snapshot ∷ snapshots) =
      then-Triple (show_miss-Keeps snapshot) (λ _. show_misses-Keeps snapshots)

  report_misses-Keeps : (snapshots : List ItemNbt) → Keeps Kept (report_misses server snapshots)
  unfolding report_misses
  report_misses-Keeps [] = give-Keeps tt
  report_misses-Keeps (snapshot ∷ snapshots) =
      then-Triple (send_message-Keeps neutral _)
        (λ _. show_misses-Keeps (take 5 (snapshot ∷ snapshots)))

  select_nearest-Keeps :
      (sender : Sender) (snapshots : List ItemNbt)
      → Keeps Kept (select_nearest server sender snapshots)
  unfolding select_nearest
  select_nearest-Keeps sender [] = give-Keeps tt
  select_nearest-Keeps sender (snapshot ∷ snapshots) =
      then-Triple (remember_target-Keeps server.python neutral sender snapshot)
        (λ target. send_message-Keeps neutral _)

  take_radius-Keeps : (radius : Result ℤ) → Keeps Kept (take_radius server radius)
  unfolding take_radius
  take_radius-Keeps (ok radius) = give-Keeps _
  take_radius-Keeps (err error) = refuse-Keeps neutral _

  take_region-Keeps : (result : Result (List ItemNbt)) → Keeps Kept (take_region server result)
  unfolding take_region
  take_region-Keeps (ok snapshots) = give-Keeps snapshots
  take_region-Keeps (err error) = refuse-Keeps neutral _

  scan-Keeps :
      (bridge : InspectorBridge World) (center : BlockLocation) (radius : ℤ)
      → Keeps Kept (scan server bridge center radius)
  unfolding scan
  scan-Keeps bridge center radius = record {
    runs = λ session kept.
        (take_region-Keeps (
            bridge.capture_region (low_corner center radius) (high_corner center radius)
              session.world)).runs
          session kept;
  }

  report_region-Keeps :
      (sender : Sender) (center : BlockLocation) (radius : ℤ) (snapshots : List ItemNbt)
      → Keeps Kept (report_region server sender center radius snapshots)
  unfolding report_region
  report_region-Keeps sender center radius snapshots =
      then-Triple (sort_by_distance-Keeps center (containers_in server.python snapshots))
        (λ containers. then-Triple (send_message-Keeps neutral _) (λ _.
          then-Triple (show_containers-Keeps (take 10 containers)) (λ _.
            then-Triple (report_misses-Keeps (actor_capture_misses server.python snapshots))
              (λ _. select_nearest-Keeps sender containers))))

  locate_within-Keeps :
      (sender : Sender) (radius : ℤ) → Keeps Kept (locate_within server sender radius)
  unfolding locate_within
  locate_within-Keeps sender radius =
      then-Triple (require_bridge-Keeps server neutral ("block_entity_nbt" ∷ []) "capture_region")
        (λ bridge. then-Triple (sender_position-Keeps server.python neutral sender) (λ center.
          then-Triple (send_message-Keeps neutral _) (λ _.
            then-Triple (scan-Keeps bridge center radius)
              (λ snapshots. report_region-Keeps sender center radius snapshots))))

  pub handle_locate-Keeps :
      (sender : Sender) (args : List String) → Keeps Kept (handle_locate server sender args)
  unfolding handle_locate
  handle_locate-Keeps sender [] = locate_within-Keeps sender (pos 5)
  handle_locate-Keeps sender (radius ∷ []) =
      then-Triple (take_radius-Keeps (server.python.convert.int_of_text radius))
        (λ parsed. locate_within-Keeps sender parsed)
  handle_locate-Keeps sender (radius ∷ more ∷ args) = refuse-Keeps neutral _
