-- ===== src/Player/Patches.antt =====
-- The patches that `PlayerInventoryView` of player_inventory.py builds.
use endstone_blockdata_api.Base.{
  ◌≡◌, ◌≢◌, refl, subst, String, Option, none, some, List, [], ◌∷◌, ok, err, type_error,
  ok_injective, >>=-eq-ok, arith, string_eq,
}
use endstone_blockdata_api.Base.Int.{ℤ, pos, ◌≤ℤ◌, ◌<ℤ◌}
use endstone_blockdata_api.Base.Dict
use endstone_blockdata_api.Base.Dict.{Dict}
use endstone_blockdata_api.Nbt.{Value, ItemNbt, as_dict, as_int}
use endstone_blockdata_api.Player.{
  PlayerInventorySection, main, armor, offhand, ender_chest, PlayerInventorySnapshot,
  PlayerInventoryPatch, empty_player_patch, section_of, section_size, check_player_slot, put_update,
  put_removal, patch_player_item, clear_player_item,
}

-- What a patch asks for in one section.
abbrev pub updates_in : PlayerInventoryPatch → PlayerInventorySection → Dict ℤ ItemNbt
updates_in p main = p.main_updates
updates_in p armor = p.armor_updates
updates_in p offhand = p.offhand_updates
updates_in p ender_chest = p.ender_chest_updates

abbrev pub removals_in : PlayerInventoryPatch → PlayerInventorySection → List ℤ
removals_in p main = p.main_removals
removals_in p armor = p.armor_removals
removals_in p offhand = p.offhand_removals
removals_in p ender_chest = p.ender_chest_removals

-- A patch for the snapshot it was made from, which asks for these updates and removals in one
-- section, and for nothing in the others.
abbrev pub IsSectionPatch :
    PlayerInventorySnapshot
    → PlayerInventorySection
    → Dict ℤ ItemNbt
    → List ℤ
    → PlayerInventoryPatch
    → Type 0
IsSectionPatch s section updates removals p =
    (p.expected_revision ≡ some s.revision)
    × (updates_in p section ≡ updates)
    × (removals_in p section ≡ removals)
    × ((other : PlayerInventorySection)
        → other ≢ section
        → (updates_in p other ≡ []) × (removals_in p other ≡ []))

abbrev pub InSection : PlayerInventorySnapshot → PlayerInventorySection → ℤ → Type 0
InSection s section slot = (pos 0 ≤ℤ slot) × (slot <ℤ section_size s section)

pub check_player_slot_iff :
    (s : PlayerInventorySnapshot) (section : PlayerInventorySection) (slot : Value) (n : ℤ)
    → check_player_slot s section slot ≡ ok n
    → (as_int slot ≡ some n) × InSection s section n
unfolding check_player_slot
check_player_slot_iff s section slot n h = ground (arith, h)

untouched_update :
    (r slot : ℤ) (item : ItemNbt) (section other : PlayerInventorySection)
    → other ≢ section
    → (updates_in (put_update section slot item (empty_player_patch r)) other ≡ [])
      × (removals_in (put_update section slot item (empty_player_patch r)) other ≡ [])
unfolding put_update
untouched_update r slot item main other differ = ground (arith, differ)
untouched_update r slot item armor other differ = ground (arith, differ)
untouched_update r slot item offhand other differ = ground (arith, differ)
untouched_update r slot item ender_chest other differ = ground (arith, differ)

untouched_removal :
    (r slot : ℤ) (section other : PlayerInventorySection)
    → other ≢ section
    → (updates_in (put_removal section slot (empty_player_patch r)) other ≡ [])
      × (removals_in (put_removal section slot (empty_player_patch r)) other ≡ [])
unfolding put_removal
untouched_removal r slot main other differ = ground (arith, differ)
untouched_removal r slot armor other differ = ground (arith, differ)
untouched_removal r slot offhand other differ = ground (arith, differ)
untouched_removal r slot ender_chest other differ = ground (arith, differ)

pub put_update-IsSectionPatch :
    (s : PlayerInventorySnapshot) (section : PlayerInventorySection) (slot : ℤ) (item : ItemNbt)
    → IsSectionPatch s section
        ((slot, item) ∷ [])
        []
        (put_update section slot item (empty_player_patch s.revision))
unfolding put_update Dict.insert
put_update-IsSectionPatch s main slot item =
    (refl, refl, refl, untouched_update s.revision slot item main)
put_update-IsSectionPatch s armor slot item =
    (refl, refl, refl, untouched_update s.revision slot item armor)
put_update-IsSectionPatch s offhand slot item =
    (refl, refl, refl, untouched_update s.revision slot item offhand)
put_update-IsSectionPatch s ender_chest slot item =
    (refl, refl, refl, untouched_update s.revision slot item ender_chest)

pub put_removal-IsSectionPatch :
    (s : PlayerInventorySnapshot) (section : PlayerInventorySection) (slot : ℤ)
    → IsSectionPatch s section []
        (slot ∷ [])
        (put_removal section slot (empty_player_patch s.revision))
unfolding put_removal
put_removal-IsSectionPatch s main slot = (refl, refl, refl, untouched_removal s.revision slot main)
put_removal-IsSectionPatch s armor slot =
    (refl, refl, refl, untouched_removal s.revision slot armor)
put_removal-IsSectionPatch s offhand slot =
    (refl, refl, refl, untouched_removal s.revision slot offhand)
put_removal-IsSectionPatch s ender_chest slot =
    (refl, refl, refl, untouched_removal s.revision slot ender_chest)

-- A `patch_item` that succeeds is for a section of that name, an integer slot in its range and a
-- mapping; its patch expects the view's revision, puts that item in that slot, and touches no
-- other slot and no other section.
pub patch_player_item-IsSectionPatch :
    (s : PlayerInventorySnapshot) (name : String) (slot value : Value) (p : PlayerInventoryPatch)
    → patch_player_item s name slot value ≡ ok p
    → (section : PlayerInventorySection) × (n : ℤ) × (item : ItemNbt) × (section_of name
        ≡ ok section)
      × (as_int slot ≡ some n)
      × (InSection s section n)
      × (as_dict value ≡ some item)
      × IsSectionPatch s section ((n, item) ∷ []) [] p
unfolding patch_player_item
patch_player_item-IsSectionPatch s name slot value p h =
    let (section, named, h) = >>=-eq-ok (section_of name) _ h in
    let (n, checked, h) = >>=-eq-ok (check_player_slot s section slot) _ h in
    let (number, inside) = check_player_slot_iff s section slot n checked in
    let (item, is_dict, same) = mapping_only section n (as_dict value) s.revision p h in
    (
      section,
      n,
      item,
      named,
      number,
      inside,
      is_dict,
      subst (IsSectionPatch s section ((n, item) ∷ []) []) same
          (put_update-IsSectionPatch s section n item),
    )
  where
    mapping_only :
        (section : PlayerInventorySection) (n : ℤ) (o : Option ItemNbt) (r : ℤ)
        (p : PlayerInventoryPatch)
        → (elim o [
          | none ↦ err (type_error "player inventory item must be an NBT mapping")
          | some item ↦ ok (put_update section n item (empty_player_patch r))
        ])
          ≡ ok p
        → (item : ItemNbt) × (o ≡ some item)
          × (put_update section n item (empty_player_patch r) ≡ p)
    mapping_only section n none r p h = cc
    mapping_only section n (some item) r p h = (item, refl, ok_injective _ p h)

-- A `clear_item` that succeeds is for a section of that name and an integer slot in its range; its
-- patch expects the view's revision, removes that slot, and touches no other slot and no other
-- section.
pub clear_player_item-IsSectionPatch :
    (s : PlayerInventorySnapshot) (name : String) (slot : Value) (p : PlayerInventoryPatch)
    → clear_player_item s name slot ≡ ok p
    → (section : PlayerInventorySection) × (n : ℤ) × (section_of name ≡ ok section)
      × (as_int slot ≡ some n)
      × (InSection s section n)
      × IsSectionPatch s section [] (n ∷ []) p
unfolding clear_player_item
clear_player_item-IsSectionPatch s name slot p h =
    let (section, named, h) = >>=-eq-ok (section_of name) _ h in
    let (n, checked, h) = >>=-eq-ok (check_player_slot s section slot) _ h in
    let (number, inside) = check_player_slot_iff s section slot n checked in
    (
      section,
      n,
      named,
      number,
      inside,
      subst (IsSectionPatch s section [] (n ∷ [])) (ok_injective _ p h)
          (put_removal-IsSectionPatch s section n),
    )
