-- ===== src/Live/Tests.antt =====
-- Concrete runs of live.py.
use endstone_blockdata_api.Base.{
  ◌≡◌, refl, String, map, ◌==◌, if◌then◌else◌, ℕ, none, some, ok, string_eq,
}
use endstone_blockdata_api.Base.Int.{pos}
use endstone_blockdata_api.Nbt.{Value, str}
use endstone_blockdata_api.Nbt.Equal.{value_eq}
use endstone_blockdata_api.Nbt.Sample.{weight, plain}
use endstone_blockdata_api.Model.{fail_if_changed}
use endstone_blockdata_api.Memory.Sample.{cellar, shelf_blocks, fill_vault}
use endstone_blockdata_api.Region.{Position, locations}
use endstone_blockdata_api.Live.{snapshot_from_mapping}
use endstone_blockdata_api.Memory
use endstone_blockdata_api.Live.Loader.{
  Imported, imported, failed, loaded, raised, module_not_found, load_live_bridge, load_from,
  missing_import_target, after_import, module_names,
}
use endstone_blockdata_api.Live.RoundTrip.{snapshot_mapping, snapshot_from_mapping-snapshot_mapping}
use endstone_blockdata_api.Live.Served.{live_served, memory_bridge, in_order}
use endstone_blockdata_api.Live.Bridge.{live_capture, live_capture_region, live_apply}
use endstone_blockdata_api.Live.Trusted.{FirstFound, load_live_bridge-FirstFound}

-- The packaged module is absent and the one of the package is there, in the package's version.
unfoldable modules : String → Imported ℕ
modules name =
    if name == "endstone_blockdata._endstone_blockdata_live"
    then imported (str "0.6.9") 7
    else failed (module_not_found (some "endstone_blockdata_inspector") "no such module")

abbrev quoted : Value → String
quoted v = "?"

load_modules : load_live_bridge "0.6.9" quoted modules ≡ loaded 7
unfolding load_live_bridge load_from after_import missing_import_target modules string_eq value_eq
load_modules = refl

-- A module that is there but lacks a dependency is not passed over.
unfoldable broken : String → Imported ℕ
broken name =
    if name == "endstone_blockdata_inspector._endstone_blockdata_live"
    then failed (module_not_found (some "ctypes") "no module ctypes")
    else imported (str "0.6.9") 7

load_broken :
    load_live_bridge "0.6.9" quoted broken
    ≡ raised (module_not_found (some "ctypes") "no module ctypes")
unfolding load_live_bridge load_from after_import missing_import_target broken string_eq value_eq
load_broken = refl

load_live_bridge-FirstFound_example : FirstFound "0.6.9" quoted modules 7 module_names
load_live_bridge-FirstFound_example =
    load_live_bridge-FirstFound "0.6.9" quoted modules 7 load_modules

snapshot_from_mapping-snapshot_mapping_example :
    snapshot_from_mapping plain (snapshot_mapping (Memory.capture weight cellar shelf_blocks))
    ≡ ok (Memory.capture weight cellar shelf_blocks)
snapshot_from_mapping-snapshot_mapping_example =
    snapshot_from_mapping-snapshot_mapping plain (Memory.capture weight cellar shelf_blocks)

abbrev corner : Position
corner = record { x = pos 1; y = pos 2; z = pos 3 }

live_served_example :
    (live_capture plain (memory_bridge weight) cellar shelf_blocks
      ≡ ok (some (Memory.capture weight cellar shelf_blocks)))
    × (live_capture_region plain (memory_bridge weight) "overworld" corner corner shelf_blocks
        ≡ ok (
            map
              (λ at. Memory.capture weight at shelf_blocks)
              (locations "overworld" corner corner)))
    × (live_apply plain (memory_bridge weight) (fill_vault none) fail_if_changed shelf_blocks ≡ (
      ok (Memory.apply weight (in_order (fill_vault none)) fail_if_changed shelf_blocks).0,
      (Memory.apply weight (in_order (fill_vault none)) fail_if_changed shelf_blocks).1,
    ))
live_served_example =
    live_served plain weight cellar corner corner (fill_vault none) fail_if_changed shelf_blocks
