-- ===== src/Shop/Tests.antt =====
-- A shop that sells bread from a shelf, and the theorems at one purchase.
use endstone_blockdata_api.Base.{
  ℕ, ◌≡◌, refl, true, some, [], ◌∷◌, arith, ok, Result, string_eq, nat_eq,
}
use endstone_blockdata_api.Base.Int.{pos, int_eq}
use endstone_blockdata_api.Base.Dict
use endstone_blockdata_api.Nbt.{
  str, int, ItemNbt, as_dict, as_int, as_str, entries, of_entries, get_first,
}
use endstone_blockdata_api.Nbt.Equal.{value_eq, fields_in, is_int}
use endstone_blockdata_api.Nbt.Sample.{weight}
use endstone_blockdata_api.Diff.{mapping_eq}
use endstone_blockdata_api.Model.{
  BlockPatch, BlockSnapshot, location_eq, BlockLocation-discrete, fail_if_changed,
}
use endstone_blockdata_api.Memory.{Blocks, capture, apply}
use endstone_blockdata_api.Memory.Sample.{vault, run_apply, shelf_blocks, shelf_entity}
use endstone_blockdata_api.Shelf
use endstone_blockdata_api.Shelf.{ShelfView, shelf, shelf_patch}
use endstone_blockdata_api.StorageItem.Rules.{int_between}
use endstone_blockdata_api.StorageItem.Reading
use endstone_blockdata_api.Shop.Stock.{
  ShelfListing, StockReservation, ShelfShop, stock_identifier, stock_count_of, with_count, matches,
  all_below, draw_id, is_used, keys_match, open_shop,
}
use endstone_blockdata_api.Shop.Calls.{
  capture_shop, find_active, complete, restored_item, plan_restore, restore, plan_reserve,
  record_reservation, reserve,
}
use endstone_blockdata_api.Shop.Tokens.{
  reserves, completes, writes, stay, step, IsRefused, complete_once, restore_once,
}
use endstone_blockdata_api.Shop.Separate.{IsSeparateAt, reachable-IsSeparateAt}

abbrev bread : ℕ → ItemNbt
bread n = ("Name", str "minecraft:bread") ∷ ("Count", int (pos n)) ∷ []

abbrev listing : ShelfListing
listing = record {
  slot = 0;
  product_id = "minecraft:bread";
  price_item_id = "minecraft:emerald";
  price_count = 1;
}

abbrev empty_shop : ShelfShop
empty_shop = record {
  location = vault;
  listings = (0, listing) ∷ [];
  active = [];
  restored = [];
  completed = [];
}

abbrev here : BlockSnapshot
here = capture weight vault shelf_blocks

-- A token for two loaves, at the shelf's present revision.
abbrev token : StockReservation
token = record {
  reservation_id = "a1";
  location = vault;
  slot = 0;
  quantity = 2;
  shelf_revision = here.revision;
  item = bread 2;
}

abbrev shop : ShelfShop
shop = record empty_shop { active = ("a1", token) ∷ [] }

found : find_active shop token ≡ ok token
unfolding find_active matches mapping_eq value_eq fields_in is_int as_dict entries of_entries
    Dict.lookup string_eq nat_eq int_eq location_eq BlockLocation-discrete run_apply
found = refl

completed : (complete shop token).0 ≡ ok tt
unfolding complete find_active matches mapping_eq value_eq fields_in is_int as_dict entries
    of_entries Dict.lookup string_eq nat_eq int_eq location_eq BlockLocation-discrete run_apply
completed = refl

-- The shelf is written to by someone else, and the token is presented again.
complete_once_example : IsRefused weight ((complete shop token).1, []) token
complete_once_example =
    complete_once weight shop shelf_blocks token token ((complete shop token).1, []) completed
      (step writes stay) refl

abbrev view : ShelfView
view = record { snapshot = here; actor = shelf_entity; kind = shelf }

abbrev restock : BlockPatch
restock = shelf_patch view ((pos 0, bread 9) ∷ []) []

planned : plan_restore weight shop shelf_blocks token ≡ ok (token, restock)
unfolding plan_restore capture_shop all_below restored_item stock_identifier stock_count_of
    with_count int_between Reading.identifier Reading.first_name Reading.name_in Reading.count
    get_first Shelf.open_shelf Shelf.open_actor Shelf.kind_of Shelf.kind_capacity Shelf.check_slots
    Shelf.capacity Shelf.get_item Shelf.validate_slot Shelf.slots Shelf.fill Shelf.store
    Shelf.patch_item Shelf.validate_item Shelf.validate_name Shelf.validate_count
    Shelf.first_present Shelf.identifier_of Shelf.count_of Shelf.accepts as_int as_str Dict.insert
    Dict.erase find_active matches mapping_eq value_eq fields_in is_int as_dict entries of_entries
    Dict.lookup string_eq nat_eq int_eq location_eq BlockLocation-discrete run_apply
planned = refl

restock_succeeds : (apply weight restock fail_if_changed shelf_blocks).0.succeeded ≡ true
unfolding run_apply location_eq BlockLocation-discrete
restock_succeeds = refl

restored :
    (restore weight shop shelf_blocks token).0
    ≡ ok (apply weight restock fail_if_changed shelf_blocks).0
unfolding restore
restored = ground (arith, planned)

restore_once_example :
    IsRefused weight
      ((restore weight shop shelf_blocks token).1, (restore weight shop shelf_blocks token).2)
      token
restore_once_example =
    restore_once weight shop shelf_blocks token token
      (apply weight restock fail_if_changed shelf_blocks).0
      ((restore weight shop shelf_blocks token).1, (restore weight shop shelf_blocks token).2)
      restored restock_succeeds stay refl

opens : open_shop vault ((0, listing) ∷ []) ≡ ok empty_shop
unfolding open_shop keys_match nat_eq
opens = refl

-- Two of the seven loaves are reserved, and the purchase is completed.
abbrev sale : BlockPatch
sale = shelf_patch view ((pos 0, bread 5) ∷ []) []

sale_planned : plan_reserve weight empty_shop shelf_blocks 0 2 ≡ ok (sale, bread 7)
unfolding plan_reserve capture_shop all_below restored_item stock_identifier stock_count_of
    with_count int_between Reading.identifier Reading.first_name Reading.name_in Reading.count
    get_first Shelf.open_shelf Shelf.open_actor Shelf.kind_of Shelf.kind_capacity Shelf.check_slots
    Shelf.capacity Shelf.get_item Shelf.validate_slot Shelf.slots Shelf.fill Shelf.store
    Shelf.patch_item Shelf.validate_item Shelf.validate_name Shelf.validate_count
    Shelf.first_present Shelf.identifier_of Shelf.count_of Shelf.accepts as_int as_str Dict.insert
    Dict.erase find_active matches mapping_eq value_eq fields_in is_int as_dict entries of_entries
    Dict.lookup string_eq nat_eq int_eq location_eq BlockLocation-discrete run_apply
sale_planned = refl

sale_succeeds : (apply weight sale fail_if_changed shelf_blocks).0.succeeded ≡ true
unfolding run_apply location_eq BlockLocation-discrete
sale_succeeds = refl

abbrev sold : Result StockReservation × ShelfShop
sold =
    record_reservation empty_shop 0 2 (bread 7)
      (apply weight sale fail_if_changed shelf_blocks).0.resulting_revision "a1"

abbrev sold_blocks : Blocks
sold_blocks = (apply weight sale fail_if_changed shelf_blocks).1

reserved :
    reserve weight ("a1" ∷ []) empty_shop shelf_blocks 0 2 ≡ some (sold.0, sold.1, sold_blocks)
unfolding reserve draw_id is_used
reserved = ground (arith, sale_planned, sale_succeeds)

reachable-IsSeparateAt_example : IsSeparateAt (complete sold.1 token).1 "a1"
reachable-IsSeparateAt_example =
    reachable-IsSeparateAt weight vault ((0, listing) ∷ []) empty_shop shelf_blocks
      ((complete sold.1 token).1, sold_blocks) "a1" opens
      (step (reserves ("a1" ∷ []) 0 2 sold.0 reserved) (step (completes token) stay))
