-- ===== src/Player/Storage.antt =====
-- Bundles in a player's inventory, of player_inventory.py: the search for them, and the way back of
-- an edited one.
use endstone_blockdata_api.Base.{
  ◌≡◌, ◌↔◌, refl, ap, sym, subst, String, Bool, true, false, some, List, [], ◌∷◌, ok, >>=-eq-ok,
  arith, Bool-cases, inl, inr,
}
use endstone_blockdata_api.Base.Int.{ℤ}
use endstone_blockdata_api.Base.Lists.{Has, Has-append, Has-append_left, Has-append_right}
use endstone_blockdata_api.Nbt.{Value, as_int, as_dict-compound}
use endstone_blockdata_api.StorageItem.Rules.{StorageItemRules}
use endstone_blockdata_api.StorageItem.Reading.{is_storage_item_nbt}
use endstone_blockdata_api.StorageItem.View.{StorageItemView}
use endstone_blockdata_api.Player.{
  PlayerInventorySection, main, armor, offhand, ender_chest, PlayerInventoryItemSnapshot,
  PlayerInventorySnapshot, PlayerInventoryPatch, PlayerStorageItemReference, empty_player_patch,
  section_of, section_items, check_player_slot, get_player_item, put_update, patch_player_item,
  open_storage_item, patch_storage_item, storage_items_in, find_storage_items,
}
use endstone_blockdata_api.Player.Patches.{
  IsSectionPatch, check_player_slot_iff, put_update-IsSectionPatch,
}

-- From a slot in which `storage_item` opened a view, any edited view can be sent back:
-- `patch_storage_item` of that slot succeeds, and its patch puts the edited item there and touches
-- nothing else.
pub patch_storage_item_back :
    (s : PlayerInventorySnapshot) (name : String) (slot : Value) (rules : StorageItemRules)
    (v edited : StorageItemView)
    → open_storage_item s name slot rules ≡ ok v
    → (section : PlayerInventorySection) × (n : ℤ) × (p : PlayerInventoryPatch) × (section_of name
        ≡ ok section)
      × (as_int slot ≡ some n)
      × (patch_storage_item s name slot edited ≡ ok p)
      × IsSectionPatch s section ((n, edited.item) ∷ []) [] p
unfolding open_storage_item get_player_item patch_storage_item patch_player_item
patch_storage_item_back s name slot rules v edited h =
    let (found, got, h) = >>=-eq-ok _ _ h in
    let (section, named, got) = >>=-eq-ok (section_of name) _ got in
    let (n, checked, got) = >>=-eq-ok (check_player_slot s section slot) _ got in
    (
      section,
      n,
      put_update section n edited.item (empty_player_patch s.revision),
      named,
      (check_player_slot_iff s section slot n checked).0,
      ground (arith, named, checked, as_dict-compound edited.item),
      put_update-IsSectionPatch s section n edited.item,
    )

-- What the search reports of an entry.
abbrev pub reference_to :
    PlayerInventorySection → PlayerInventoryItemSnapshot → PlayerStorageItemReference
reference_to section entry = record {
  section = section;
  slot = entry.slot;
  item = entry.item;
  revision = entry.revision;
}

-- An entry that the search is to report, of one section.
abbrev pub IsFound :
    PlayerInventorySection → List PlayerInventoryItemSnapshot → PlayerStorageItemReference → Type 0
IsFound section entries r =
    (entry : PlayerInventoryItemSnapshot) × Has entry entries
    × (is_storage_item_nbt entry.item ≡ true)
    × (r ≡ reference_to section entry)

later-IsFound :
    (section : PlayerInventorySection) (e : PlayerInventoryItemSnapshot)
    (es : List PlayerInventoryItemSnapshot) (r : PlayerStorageItemReference)
    → IsFound section es r
    → IsFound section (e ∷ es) r
later-IsFound section e es r (entry, there, stores, same) = (entry, inr there, stores, same)

-- The references after an entry of which it is known whether it is a storage item.
abbrev kept :
    Bool
    → PlayerStorageItemReference
    → List PlayerStorageItemReference
    → List PlayerStorageItemReference
kept true r rest = r ∷ rest
kept false r rest = rest

storage_items_in-cons :
    (section : PlayerInventorySection) (e : PlayerInventoryItemSnapshot)
    (es : List PlayerInventoryItemSnapshot) (stores : Bool)
    → is_storage_item_nbt e.item ≡ stores
    → storage_items_in section (e ∷ es)
      ≡ kept stores (reference_to section e) (storage_items_in section es)
unfolding storage_items_in
storage_items_in-cons section e es true h = ground (arith, h)
storage_items_in-cons section e es false h = ground (arith, h)

Has-storage_items_in :
    (section : PlayerInventorySection) (entries : List PlayerInventoryItemSnapshot)
    (r : PlayerStorageItemReference)
    → Has r (storage_items_in section entries)
    → IsFound section entries r
unfolding storage_items_in
Has-storage_items_in section [] r h = absurd h
Has-storage_items_in section (e ∷ es) r h = elim (Bool-cases (is_storage_item_nbt e.item)) [
  | inl stores ↦ elim (subst (Has r) (storage_items_in-cons section e es true stores) h) [
    | inl same ↦ (e, inl refl, stores, same)
    | inr rest ↦ later-IsFound section e es r (Has-storage_items_in section es r rest)
  ]
  | inr plain ↦ later-IsFound section e es r (
      Has-storage_items_in section es r
        (subst (Has r) (storage_items_in-cons section e es false plain) h))
]

storage_items_in-Has :
    (section : PlayerInventorySection) (entries : List PlayerInventoryItemSnapshot)
    (entry : PlayerInventoryItemSnapshot)
    → Has entry entries
    → is_storage_item_nbt entry.item ≡ true
    → Has (reference_to section entry) (storage_items_in section entries)
storage_items_in-Has section [] entry there stores = absurd there
storage_items_in-Has section (e ∷ es) entry (inl same) stores =
    subst (Has (reference_to section entry))
      (sym (
        storage_items_in-cons section e es true
          (subst (λ x. is_storage_item_nbt x.item ≡ true) same stores)))
      (inl (ap (reference_to section) same))
storage_items_in-Has section (e ∷ es) entry (inr there) stores =
    let rest = storage_items_in-Has section es entry there stores in
    elim (Bool-cases (is_storage_item_nbt e.item)) [
      | inl this ↦
          subst (Has (reference_to section entry))
            (sym (storage_items_in-cons section e es true this)) (inr rest)
      | inr plain ↦
          subst (Has (reference_to section entry))
            (sym (storage_items_in-cons section e es false plain)) rest
    ]

found_in :
    (s : PlayerInventorySnapshot) (section : PlayerInventorySection)
    (entry : PlayerInventoryItemSnapshot)
    → Has entry (section_items s section)
    → is_storage_item_nbt entry.item ≡ true
    → Has (reference_to section entry) (find_storage_items s)
unfolding find_storage_items section_items
found_in s main entry there stores =
    Has-append_left _ (storage_items_in main s.main) _
      (storage_items_in-Has main s.main entry there stores)
found_in s armor entry there stores = Has-append_right _ (storage_items_in main s.main) _ (
    Has-append_left _ (storage_items_in armor s.armor) _
      (storage_items_in-Has armor s.armor entry there stores))
found_in s offhand entry there stores = Has-append_right _ (storage_items_in main s.main) _ (
    Has-append_right _ (storage_items_in armor s.armor) _ (
      Has-append_left _ (storage_items_in offhand s.offhand) _
        (storage_items_in-Has offhand s.offhand entry there stores)))
found_in s ender_chest entry there stores = Has-append_right _ (storage_items_in main s.main) _ (
    Has-append_right _ (storage_items_in armor s.armor) _ (
      Has-append_right _ (storage_items_in offhand s.offhand) _
        (storage_items_in-Has ender_chest s.ender_chest entry there stores)))

-- `find_storage_items` reports exactly the entries of the four sections whose items are storage
-- items, each with its section, slot, item and revision.
pub find_storage_items_iff :
    (s : PlayerInventorySnapshot) (r : PlayerStorageItemReference)
    → Has r (find_storage_items s)
      ↔ ((section : PlayerInventorySection) × IsFound section (section_items s section) r)
unfolding find_storage_items section_items
find_storage_items_iff s r = (
  λ h. elim (Has-append r (storage_items_in main s.main) _ h) [
    | inl found ↦ (main, Has-storage_items_in main s.main r found)
    | inr h ↦ elim (Has-append r (storage_items_in armor s.armor) _ h) [
      | inl found ↦ (armor, Has-storage_items_in armor s.armor r found)
      | inr h ↦ elim (Has-append r (storage_items_in offhand s.offhand) _ h) [
        | inl found ↦ (offhand, Has-storage_items_in offhand s.offhand r found)
        | inr found ↦ (ender_chest, Has-storage_items_in ender_chest s.ender_chest r found)
      ]
    ]
  ],
  λ (section, (entry, there, stores, same)).
      subst (λ r. Has r (find_storage_items s)) (sym same) (found_in s section entry there stores),
)
