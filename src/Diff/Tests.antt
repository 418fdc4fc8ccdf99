-- ===== src/Diff/Tests.antt =====
-- The diff at concrete snapshots.
use endstone_blockdata_api.Base.{
  ◌≡◌, refl, true, none, some, [], ◌∷◌, ◌==◌, if◌then◌else◌, ok, err, value_error, then_return,
  string_eq,
}
use endstone_blockdata_api.Base.Int.{pos, int_eq}
use endstone_blockdata_api.Base.Dict
use endstone_blockdata_api.Nbt.{int, str, ItemNbt, entries, of_entries}
use endstone_blockdata_api.Model.{
  BlockLocation, location_eq, BlockSnapshot, default_snapshot, empty,
}
use endstone_blockdata_api.Diff.{diff, items_of}
use endstone_blockdata_api.Diff.Slots.{changes_at, expected_at, diff-changes_at}
use endstone_blockdata_api.Diff.Same.{SnapshotIsProper, diff_same}

abbrev chest_at : BlockLocation
chest_at = record { dimension = "overworld"; x = pos 1; y = pos 2; z = pos 3 }

abbrev gold : ItemNbt
gold = ("Name", str "minecraft:gold_ingot") ∷ ("Count", int (pos 2)) ∷ []

abbrev chest : BlockSnapshot
chest = record (default_snapshot chest_at) {
  type = "minecraft:chest";
  block_entity = some (record {
    type = "minecraft:chest";
    nbt = [];
    raw_snbt = "";
    canonical_nbt = true;
    inventory = record { slot = pos 4; item = gold; revision = pos 0 } ∷ [];
    is_container = true;
    container_size = pos 27;
  });
}

chest-SnapshotIsProper : SnapshotIsProper chest
unfolding entries of_entries Dict.lookup string_eq
chest-SnapshotIsProper = record { states = tt; entity = (tt, ((refl, tt, (refl, tt, tt)), tt)) }

diff_same_example : then_return empty (diff chest chest) ≡ ok true
diff_same_example = diff_same chest chest-SnapshotIsProper

diff-changes_at_example :
    then_return
      (λ d. changes_at (pos 4) d.inventory_changes)
      (diff chest (default_snapshot chest_at))
    ≡ (if chest_at == chest_at
        then ok (
            expected_at
              (pos 4)
              (Dict.lookup (pos 4) (items_of chest.block_entity))
              (Dict.lookup (pos 4) (items_of none)))
        else err (value_error "snapshot locations differ"))
diff-changes_at_example = diff-changes_at chest (default_snapshot chest_at) (pos 4)
