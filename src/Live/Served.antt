-- ===== src/Live/Served.antt =====
-- The live adapter over a bridge that serves an in-memory adapter through the bridge's mappings.
use endstone_blockdata_api.Base.{
  ℕ, ◌≡◌, refl, ap, String, true, some, List, [], ◌∷◌, map, ◌==◌, if◌then◌else◌, Result, ok, err,
  value_error, ◌>>=◌, map_result, string_eq, then_return,
}
use endstone_blockdata_api.Base.Int.{leb_ℤ}
use endstone_blockdata_api.Base.Texts.{text_leb}
use endstone_blockdata_api.Base.Sort.{sort}
use endstone_blockdata_api.Base.Dict.{lookup}
use endstone_blockdata_api.Nbt.{Value, str, int, bool, ItemNbt}
use endstone_blockdata_api.Nbt.Conversion.{Conversions, to_int, to_str, to_bool, get_or}
use endstone_blockdata_api.Model.{
  BlockLocation, BlockSnapshot, BlockPatch, ConflictPolicy, fail_if_changed, merge_changed_paths,
  merge_inventory_slots, replace, force, ApplyResult,
}
use endstone_blockdata_api.Memory
use endstone_blockdata_api.Memory.{Blocks}
use endstone_blockdata_api.Region.{Position, locations}
use endstone_blockdata_api.Live.{
  PatchMapping, location_mapping, patch_to_mapping, policy_name, snapshot_from_mapping,
}
use endstone_blockdata_api.Live.Bridge.{
  Bridge, live_capture, live_capture_region, live_apply, read_result,
}
use endstone_blockdata_api.Live.RoundTrip.{snapshot_mapping, snapshot_from_mapping-snapshot_mapping}

-- The far side reads the mapping of a patch and the name of a policy back.
unfoldable pub location_of : ItemNbt → Result BlockLocation
location_of d = elim (lookup "dimension" d) [
  | some (str dimension) ↦ elim (lookup "x" d) [
    | some (int x) ↦ elim (lookup "y" d) [
      | some (int y) ↦ elim (lookup "z" d) [
        | some (int z) ↦ ok record { dimension = dimension; x = x; y = y; z = z }
        | _ ↦ err (value_error "z")
      ]
      | _ ↦ err (value_error "y")
    ]
    | _ ↦ err (value_error "x")
  ]
  | _ ↦ err (value_error "dimension")
]

unfoldable pub patch_of : PatchMapping → Result BlockPatch
patch_of m = do
  location ← location_of m.location
  ok record {
    location = location;
    expected_revision = m.expected_revision;
    replacement_type = m.replacement_type;
    state_updates = m.state_updates;
    state_removals = m.state_removals;
    nbt_updates = m.nbt_updates;
    nbt_removals = m.nbt_removals;
    inventory_updates = m.inventory_updates;
    inventory_removals = m.inventory_removals;
  }

unfoldable pub policy_of : String → Result ConflictPolicy
policy_of name =
    if name == "fail_if_changed"
    then ok fail_if_changed
    else if name == "merge_changed_paths"
    then ok merge_changed_paths
    else if name == "merge_inventory_slots"
    then ok merge_inventory_slots
    else if name == "replace"
    then ok replace
    else if name == "force"
    then ok force
    else err (value_error "policy")

unfoldable pub result_mapping : ApplyResult → ItemNbt
result_mapping r =
    ("ok", bool r.succeeded)
    ∷ ("status", str r.status)
    ∷ ("message", str r.message)
    ∷ ("resulting_revision", int r.resulting_revision)
    ∷ []

-- A patch with its removals in order, as they are sent.
abbrev pub in_order : BlockPatch → BlockPatch
in_order p = record p {
  state_removals = sort text_leb p.state_removals;
  nbt_removals = sort text_leb p.nbt_removals;
  inventory_removals = sort leb_ℤ p.inventory_removals;
}

location_of-location_mapping : (loc : BlockLocation) → location_of (location_mapping loc) ≡ ok loc
unfolding location_of location_mapping lookup string_eq
location_of-location_mapping loc = refl

patch_of-patch_to_mapping : (p : BlockPatch) → patch_of (patch_to_mapping p) ≡ ok (in_order p)
unfolding patch_of patch_to_mapping
patch_of-patch_to_mapping p = simp (location_of-location_mapping p.location)

policy_of-policy_name : (c : ConflictPolicy) → policy_of (policy_name c) ≡ ok c
unfolding policy_of policy_name string_eq
policy_of-policy_name fail_if_changed = refl
policy_of-policy_name merge_changed_paths = refl
policy_of-policy_name merge_inventory_slots = refl
policy_of-policy_name replace = refl
policy_of-policy_name force = refl

module _ (digest : Value → ℕ) where
  unfoldable pub serve_apply :
      Result BlockPatch → Result ConflictPolicy → Blocks → Result ItemNbt × Blocks
  serve_apply (err e) policy blocks = (err e, blocks)
  serve_apply (ok p) (err e) blocks = (err e, blocks)
  serve_apply (ok p) (ok policy) blocks =
      let (result, after) = Memory.apply digest p policy blocks in
      (ok (result_mapping result), after)

  unfoldable pub memory_bridge : Bridge Blocks
  unfolding serve_apply
  memory_bridge = record {
    available = λ blocks. ok (bool true);
    capabilities = λ blocks. ok (("in_memory", bool true) ∷ []);
    capture = λ dimension x y z blocks. ok (
        some (
          snapshot_mapping (
            Memory.capture digest (record { dimension = dimension; x = x; y = y; z = z }) blocks)));
    capture_region = λ dimension x y z x' y' z' blocks. ok (
        map (λ loc. snapshot_mapping (Memory.capture digest loc blocks))
          (locations dimension (record { x = x; y = y; z = z })
            (record { x = x'; y = y'; z = z' })));
    apply = λ mapping name blocks. serve_apply (patch_of mapping) (policy_of name) blocks;
  }

module _ (convert : Conversions) where
  read_result-result_mapping : (r : ApplyResult) → read_result convert (result_mapping r) ≡ ok r
  unfolding read_result result_mapping to_int to_str to_bool get_or lookup string_eq
  read_result-result_mapping r = refl

  map_snapshots :
      {A : Type 0} (snapshot : A → BlockSnapshot) (l : List A)
      → map_result (snapshot_from_mapping convert) (map (λ a. snapshot_mapping (snapshot a)) l)
        ≡ ok (map snapshot l)
  unfolding map_result
  map_snapshots snapshot [] = refl
  map_snapshots snapshot (a ∷ l) =
      simp (snapshot_from_mapping-snapshot_mapping convert (snapshot a), map_snapshots snapshot l)

  -- Over a bridge that serves an in-memory adapter and reads the mappings and the policy names
  -- back, the live adapter's `capture` gives the adapter's snapshot, its `capture_region` the
  -- adapter's snapshots of every location between the corners, and its `apply` the adapter's
  -- result and its blocks, for the patch with its removals in order.
  pub live_served :
      (digest : Value → ℕ) (loc : BlockLocation) (low high : Position) (p : BlockPatch)
      (policy : ConflictPolicy) (blocks : Blocks)
      → (live_capture convert (memory_bridge digest) loc blocks
          ≡ ok (some (Memory.capture digest loc blocks)))
        × (live_capture_region convert (memory_bridge digest) loc.dimension low high blocks
            ≡ ok (map (λ at. Memory.capture digest at blocks) (locations loc.dimension low high)))
        × (live_apply convert (memory_bridge digest) p policy blocks ≡ (
          ok (Memory.apply digest (in_order p) policy blocks).0,
          (Memory.apply digest (in_order p) policy blocks).1,
        ))
  unfolding live_capture live_capture_region live_apply memory_bridge serve_apply
  live_served digest loc low high p policy blocks = (
    ap (then_return some)
        (snapshot_from_mapping-snapshot_mapping convert (Memory.capture digest loc blocks)),
    map_snapshots (λ at. Memory.capture digest at blocks) (locations loc.dimension low high),
    simp (
      patch_of-patch_to_mapping p,
      policy_of-policy_name policy,
      read_result-result_mapping (Memory.apply digest (in_order p) policy blocks).0,
    ),
  )
