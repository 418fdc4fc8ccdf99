-- ===== src/Memory/Sample.antt =====
-- Data for the tests, and `apply` as it runs on them.
use endstone_blockdata_api.Base.{
  ◌≡◌, refl, arith, inr, subst, true, Option, some, [], ◌∷◌, string_eq, nat_eq,
}
use endstone_blockdata_api.Base.Int.{ℤ, pos, int_eq, ◌+ℤ◌, max_ℤ}
use endstone_blockdata_api.Base.Sort.{sort}
use endstone_blockdata_api.Base.Dict
use endstone_blockdata_api.Nbt.{int, str, ItemNbt, entries, of_entries, of_elements}
use endstone_blockdata_api.Nbt.Canonical.{canonical}
use endstone_blockdata_api.Nbt.Sample.{weight}
use endstone_blockdata_api.Model.{
  BlockLocation, location_eq, BlockPatch, ApplyResult, fail_if_changed, refresh_revision,
  revision_of, snapshot_json, BlockEntitySnapshot, BlockSnapshot, default_snapshot,
}
use endstone_blockdata_api.Memory.{
  Blocks, capture, stored, apply, patch_snapshot, patch_block, patch_entity, patch_slots, slots_of,
  grow,
}
use endstone_blockdata_api.Memory.Laws.{patched}
use endstone_blockdata_api.Memory.Sound.{AllSound, AllSound-nil, refresh-IsSound, insert-AllSound}
use endstone_blockdata_api.Memory.Invariant.{IsWellFormed}

abbrev pub vault : BlockLocation
vault = record { dimension = "overworld"; x = pos 100; y = pos 64; z = pos 200 }

abbrev pub cellar : BlockLocation
cellar = record { dimension = "overworld"; x = pos 1; y = pos 2; z = pos 3 }

abbrev pub diamonds : ItemNbt
diamonds = ("Name", str "minecraft:diamond") ∷ ("Count", int (pos 16)) ∷ []

-- The patch of examples/python/container_example.py.
abbrev pub fill_vault : Option ℤ → BlockPatch
fill_vault expected = record {
  location = vault;
  expected_revision = expected;
  replacement_type = some "minecraft:chest";
  state_updates = [];
  state_removals = [];
  nbt_updates = ("CustomName", str "Kingdom Vault") ∷ [];
  nbt_removals = [];
  inventory_updates = (pos 0, diamonds) ∷ [];
  inventory_removals = [];
}

-- Everything that `apply` computes with.
unfoldable pub run_apply : BlockPatch → Blocks → ApplyResult × Blocks
unfolding apply patched capture stored refresh_revision revision_of snapshot_json canonical entries
    of_entries of_elements sort weight patch_snapshot patch_block patch_entity patch_slots slots_of
    grow Dict.lookup Dict.update Dict.insert Dict.erase_all Dict.erase string_eq int_eq ◌+ℤ◌ max_ℤ
run_apply p = apply weight p fail_if_changed

abbrev bread : ItemNbt
bread = ("Name", str "minecraft:bread") ∷ ("Count", int (pos 7)) ∷ []

-- A shelf with bread in its first slot.
abbrev pub shelf_entity : BlockEntitySnapshot
shelf_entity = record {
  type = "minecraft:shelf";
  nbt = [];
  raw_snbt = "";
  canonical_nbt = true;
  inventory = record { slot = pos 0; item = bread; revision = pos 0 } ∷ [];
  is_container = true;
  container_size = pos 3;
}

abbrev pub shelf_block : BlockSnapshot
shelf_block = record (default_snapshot vault) {
  type = "minecraft:shelf";
  block_entity = some shelf_entity;
  block_entity_status = "captured";
}

abbrev pub shelf_blocks : Blocks
shelf_blocks = Dict.insert vault (refresh_revision weight shelf_block) []

some_injective : (d e : BlockEntitySnapshot) → some d ≡ some e → d ≡ e
some_injective d e h = cc

shelf_entity-IsWellFormed : IsWellFormed shelf_entity
unfolding Dict.lookup
shelf_entity-IsWellFormed = record {
  distinct = (refl, tt);
  in_bounds = (omega arith, tt);
  container = inr refl;
}

pub shelf_blocks-AllSound : AllSound weight shelf_blocks
shelf_blocks-AllSound =
    insert-AllSound weight vault (refresh_revision weight shelf_block) []
      (refresh-IsSound weight vault shelf_block refl
        (λ e h. subst IsWellFormed (some_injective shelf_entity e h) shelf_entity-IsWellFormed))
      (AllSound-nil weight)
