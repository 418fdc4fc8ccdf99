-- ===== src/Model.antt =====
-- model.py: the records that the package's components pass to one another.
use endstone_blockdata_api.Base.{
  ℕ, String, Bool, true, false, not, ◌&&◌, Option, none, some, List, [], ◌∷◌, map, Eq, string_eq,
}
use endstone_blockdata_api.Base.Int.{ℤ, pos, ℤ_discrete, leb_ℤ, int_eq}
use endstone_blockdata_api.Base.Sort.{sort}
use endstone_blockdata_api.Base.Dict.{Dict}
use endstone_blockdata_api.Nbt.{Value, null, bool, int, str, ItemNbt, compound, sequence}
use endstone_blockdata_api.Nbt.Canonical.{canonical}

pub data ConflictPolicy : Type 0 where
  fail_if_changed merge_changed_paths merge_inventory_slots replace force : ConflictPolicy

pub data InventoryChangeKind : Type 0 where
  added removed changed : InventoryChangeKind

pub record BlockLocation : Type 0 where
  pub dimension : String
  pub x : ℤ
  pub y : ℤ
  pub z : ℤ

unfoldable pub BlockLocation-discrete : Discrete BlockLocation
unfolding string_eq ℤ_discrete
BlockLocation-discrete = hlevel (string_eq.dec, ℤ_discrete)

instance unfoldable pub location_eq : Eq BlockLocation
location_eq = record { dec = BlockLocation-discrete }

pub record InventorySlotSnapshot : Type 0 where
  pub slot : ℤ
  pub item : ItemNbt
  pub revision : ℤ

pub record BlockEntitySnapshot : Type 0 where
  pub type : String
  pub nbt : ItemNbt
  pub raw_snbt : String
  pub canonical_nbt : Bool
  pub inventory : List InventorySlotSnapshot
  pub is_container : Bool
  pub container_size : ℤ

pub record BlockSnapshot : Type 0 where
  pub location : BlockLocation
  pub type : String
  pub runtime_id : ℤ
  pub states : ItemNbt
  pub block_entity : Option BlockEntitySnapshot
  pub revision : ℤ
  pub block_entity_status : String

-- `BlockSnapshot(location)`
abbrev pub default_snapshot : BlockLocation → BlockSnapshot
default_snapshot loc = record {
  location = loc;
  type = "minecraft:air";
  runtime_id = pos 0;
  states = [];
  block_entity = none;
  revision = pos 0;
  block_entity_status = "not_supported";
}

-- The mapping that `refresh_revision` hands to `json.dumps`.
slot_json : InventorySlotSnapshot → Value
slot_json s = compound (("slot", int s.slot) ∷ ("item", compound s.item) ∷ [])

by_slot : InventorySlotSnapshot → InventorySlotSnapshot → Bool
by_slot s t = leb_ℤ s.slot t.slot

entity_json : Option BlockEntitySnapshot → Value
entity_json none = null
entity_json (some e) = compound (
    ("type", str e.type)
    ∷ ("nbt", compound e.nbt)
    ∷ ("is_container", bool e.is_container)
    ∷ ("container_size", int e.container_size)
    ∷ ("inventory", sequence (map slot_json (sort by_slot e.inventory)))
    ∷ [])

unfoldable pub snapshot_json : BlockSnapshot → Value
unfolding slot_json by_slot entity_json sort
snapshot_json s = compound (
    ("type", str s.type)
    ∷ ("runtime", int s.runtime_id)
    ∷ ("states", compound s.states)
    ∷ ("entity_status", str s.block_entity_status)
    ∷ ("entity", entity_json s.block_entity)
    ∷ [])

-- `digest` stands for the compact JSON text of a mapping with sorted keys and its 8-byte BLAKE2b
-- hash, read as a number.
module _ (digest : Value → ℕ) where
  unfoldable pub revision_of : BlockSnapshot → ℤ
  revision_of s = pos (digest (canonical (snapshot_json s)))

  unfoldable pub refresh_revision : BlockSnapshot → BlockSnapshot
  refresh_revision s = record s { revision = revision_of s }

pub record BlockPatch : Type 0 where
  pub location : BlockLocation
  pub expected_revision : Option ℤ
  pub replacement_type : Option String
  pub state_updates : ItemNbt
  pub state_removals : List String
  pub nbt_updates : ItemNbt
  pub nbt_removals : List String
  pub inventory_updates : Dict ℤ ItemNbt
  pub inventory_removals : List ℤ

-- `BlockPatch(location, revision)`
abbrev pub empty_patch : BlockLocation → ℤ → BlockPatch
empty_patch loc r = record {
  location = loc;
  expected_revision = some r;
  replacement_type = none;
  state_updates = [];
  state_removals = [];
  nbt_updates = [];
  nbt_removals = [];
  inventory_updates = [];
  inventory_removals = [];
}

pub record ApplyResult : Type 0 where
  pub succeeded : Bool
  pub status : String
  pub message : String
  pub resulting_revision : ℤ

pub record InventoryChange : Type 0 where
  pub slot : ℤ
  pub kind : InventoryChangeKind
  pub before : Option ItemNbt
  pub after : Option ItemNbt

pub record BlockEntityAuditDelta : Type 0 where
  pub location : BlockLocation
  pub before_revision : ℤ
  pub after_revision : ℤ
  pub block_changed : Bool
  pub actor_nbt_changed : Bool
  pub inventory_changes : List InventoryChange

abbrev pub is_empty {ℓ} : {A : Type ℓ} → List A → Bool
is_empty [] = true
is_empty (x ∷ xs) = false

-- `BlockEntityAuditDelta.empty`
unfoldable pub empty : BlockEntityAuditDelta → Bool
empty d = not d.block_changed && not d.actor_nbt_changed && is_empty d.inventory_changes
