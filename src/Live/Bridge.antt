-- ===== src/Live/Bridge.antt =====
-- `LiveBlockDataAdapter` of live.py. The native bridge is a parameter: its calls are functions of
-- the world that the server holds.
use endstone_blockdata_api.Base.{
  String, Bool, false, Option, none, some, List, Result, ok, ◌>>=◌, map_result, then_return,
}
use endstone_blockdata_api.Base.Int.{ℤ, pos}
use endstone_blockdata_api.Nbt.{Value, int, str, bool, ItemNbt}
use endstone_blockdata_api.Nbt.Conversion.{Conversions, to_int, to_str, to_bool, get_or}
use endstone_blockdata_api.Model.{
  BlockLocation, BlockSnapshot, BlockPatch, ConflictPolicy, ApplyResult,
}
use endstone_blockdata_api.Region.{Position}
use endstone_blockdata_api.Live.{PatchMapping, patch_to_mapping, policy_name, snapshot_from_mapping}

-- The calls of the module that the adapter makes; each may raise.
pub record Bridge {ℓ} (World : Type ℓ) : Type ℓ where
  pub available : World → Result Value
  pub capabilities : World → Result ItemNbt
  pub capture : String → ℤ → ℤ → ℤ → World → Result (Option ItemNbt)
  pub capture_region : String → ℤ → ℤ → ℤ → ℤ → ℤ → ℤ → World → Result (List ItemNbt)
  pub apply : PatchMapping → String → World → Result ItemNbt × World

module _ (convert : Conversions) where
  -- The result of the bridge's `apply` as an `ApplyResult`.
  unfoldable pub read_result : ItemNbt → Result ApplyResult
  read_result raw = do
    revision ← to_int convert (get_or "resulting_revision" (int (pos 0)) raw)
    ok record {
      succeeded = to_bool convert (get_or "ok" (bool false) raw);
      status = to_str convert (get_or "status" (str "adapter_error") raw);
      message = to_str convert (get_or "message" (str "live adapter returned no message") raw);
      resulting_revision = revision;
    }

module _ {ℓ} {World : Type ℓ} (convert : Conversions) (bridge : Bridge World) where
  unfoldable pub live_available : World → Result Bool
  live_available world = do v ← bridge.available world; ok (to_bool convert v)

  unfoldable pub live_capabilities : World → Result ItemNbt
  live_capabilities world = bridge.capabilities world

  unfoldable pub live_capture : BlockLocation → World → Result (Option BlockSnapshot)
  live_capture loc world = do
    raw ← bridge.capture loc.dimension loc.x loc.y loc.z world
    elim raw [
      | none ↦ ok none
      | some mapping ↦ then_return some (snapshot_from_mapping convert mapping)
    ]

  unfoldable pub live_capture_region :
      String → Position → Position → World → Result (List BlockSnapshot)
  live_capture_region dimension low high world = do
    raw_snapshots ← bridge.capture_region dimension low.x low.y low.z high.x high.y high.z world
    map_result (snapshot_from_mapping convert) raw_snapshots

  unfoldable pub live_apply : BlockPatch → ConflictPolicy → World → Result ApplyResult × World
  live_apply patch policy world =
      let (raw, after) = bridge.apply (patch_to_mapping patch) (policy_name policy) world in
      (raw >>= read_result convert, after)
