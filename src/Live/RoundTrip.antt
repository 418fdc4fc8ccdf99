-- ===== src/Live/RoundTrip.antt =====
-- A snapshot survives the mapping that carries it through live.py.
use endstone_blockdata_api.Base.{
  ◌≡◌, refl, ap, String, Option, none, some, List, [], ◌∷◌, map, ok, string_eq, map_result,
}
use endstone_blockdata_api.Base.Dict.{lookup}
use endstone_blockdata_api.Nbt.{
  Value, null, bool, int, str, ItemNbt, compound, sequence, as_dict, as_list, entries,
  entries-of_entries, elements-of_elements,
}
use endstone_blockdata_api.Nbt.Conversion.{Conversions, to_int, to_str, to_bool, get_or, get_key}
use endstone_blockdata_api.Model.{InventorySlotSnapshot, BlockEntitySnapshot, BlockSnapshot}
use endstone_blockdata_api.Live.{
  expect_dict, expect_list, read_location, read_slot, read_entity, read_actor, location_mapping,
  snapshot_from_mapping,
}

-- The mapping of a snapshot, with every key that the adapter reads.
abbrev pub slot_mapping : InventorySlotSnapshot → Value
slot_mapping s =
    compound (("slot", int s.slot) ∷ ("item", compound s.item) ∷ ("revision", int s.revision) ∷ [])

abbrev pub entity_mapping : BlockEntitySnapshot → Value
entity_mapping e = compound (
    ("type", str e.type)
    ∷ ("nbt", compound e.nbt)
    ∷ ("snbt", str e.raw_snbt)
    ∷ ("canonical", bool e.canonical_nbt)
    ∷ ("inventory", sequence (map slot_mapping e.inventory))
    ∷ ("is_container", bool e.is_container)
    ∷ ("container_size", int e.container_size)
    ∷ [])

abbrev pub actor_mapping : Option BlockEntitySnapshot → Value
actor_mapping none = null
actor_mapping (some e) = entity_mapping e

unfoldable pub snapshot_mapping : BlockSnapshot → ItemNbt
unfolding location_mapping
snapshot_mapping s =
    ("location", compound (location_mapping s.location))
    ∷ ("type", str s.type)
    ∷ ("runtime_id", int s.runtime_id)
    ∷ ("states", compound s.states)
    ∷ ("block_entity", actor_mapping s.block_entity)
    ∷ ("revision", int s.revision)
    ∷ ("block_entity_status", str s.block_entity_status)
    ∷ []

pub expect_dict-compound : (m : String) (d : ItemNbt) → expect_dict m (compound d) ≡ ok d
unfolding expect_dict as_dict
expect_dict-compound m d = ap ok (entries-of_entries d)

pub expect_list-sequence : (m : String) (l : List Value) → expect_list m (sequence l) ≡ ok l
unfolding expect_list as_list
expect_list-sequence m l = ap ok (elements-of_elements l)

module _ (convert : Conversions) where
  read_slot-slot_mapping : (s : InventorySlotSnapshot) → read_slot convert (slot_mapping s) ≡ ok s
  unfolding read_slot expect_dict as_dict entries get_or get_key to_int lookup string_eq
  read_slot-slot_mapping s = simp (entries-of_entries)

  read_slots :
      (l : List InventorySlotSnapshot) → map_result (read_slot convert) (map slot_mapping l) ≡ ok l
  unfolding map_result
  read_slots [] = refl
  read_slots (s ∷ l) = simp (read_slot-slot_mapping s, read_slots l)

  read_entity-entity_mapping :
      (e : BlockEntitySnapshot) → read_entity convert (entity_mapping e) ≡ ok e
  unfolding read_entity expect_dict expect_list as_dict as_list entries get_or get_key to_int to_str
      to_bool lookup string_eq
  read_entity-entity_mapping e =
      simp (entries-of_entries, elements-of_elements, read_slots e.inventory)

  read_actor-actor_mapping :
      (a : Option BlockEntitySnapshot) → read_actor convert (actor_mapping a) ≡ ok a
  unfolding read_actor
  read_actor-actor_mapping none = refl
  read_actor-actor_mapping (some e) = simp (read_entity-entity_mapping e)

  -- Reading the mapping of a snapshot, which has every key that is read, gives the snapshot back,
  -- whatever it holds and however Python converts and prints other values.
  pub snapshot_from_mapping-snapshot_mapping :
      (s : BlockSnapshot) → snapshot_from_mapping convert (snapshot_mapping s) ≡ ok s
  unfolding snapshot_from_mapping snapshot_mapping read_location location_mapping expect_dict
      as_dict entries get_or get_key to_int to_str lookup string_eq
  snapshot_from_mapping-snapshot_mapping s =
      simp (entries-of_entries, read_actor-actor_mapping s.block_entity)
