-- ===== src/Shop/Stock.antt =====
-- The listings, quotes and tokens of shelf_shop.py, and the shop that keeps them. The numbers of a
-- listing and of a token are those that their constructors accepted.
use endstone_blockdata_api.Base.{
  ℕ, String, Bool, true, not, ◌&&◌, ◌||◌, Option, none, some, List, [], ◌∷◌, ◌==◌, contains, leb,
  ltb, if◌then◌else◌, Result, ok, err, value_error, ◌>>=◌, ◌>>◌, require, string_eq, nat_eq,
}
use endstone_blockdata_api.Base.Int.{ℤ, pos, leb_ℤ, int_eq}
use endstone_blockdata_api.Base.Dict
use endstone_blockdata_api.Base.Dict.{Dict, keys}
use endstone_blockdata_api.Nbt.{Value, int, ItemNbt}
use endstone_blockdata_api.Diff.{mapping_eq}
use endstone_blockdata_api.Model.{BlockLocation, location_eq}
use endstone_blockdata_api.StorageItem.Reading

pub record ShelfListing : Type 0 where
  pub slot : ℕ
  pub product_id : String
  pub price_item_id : String
  pub price_count : ℕ

pub record ShelfQuote : Type 0 where
  pub listing : ShelfListing
  pub stock_count : ℕ
  pub item : Option ItemNbt
  pub shelf_revision : ℤ

pub record StockReservation : Type 0 where
  pub reservation_id : String
  pub location : BlockLocation
  pub slot : ℕ
  pub quantity : ℕ
  pub shelf_revision : ℤ
  pub item : ItemNbt

pub record ShelfShop : Type 0 where
  pub location : BlockLocation
  pub listings : Dict ℕ ShelfListing
  pub active : Dict String StockReservation
  pub restored : List String
  pub completed : List String

-- An `int` that is no `bool`, not below `lo`.
unfoldable pub int_from : ℕ → Value → Option ℕ
int_from lo (int (pos n)) = if leb lo n then some n else none
int_from lo _ = none

-- `ShelfListing(...)`, with the tests of its constructor.
unfoldable pub make_listing : Value → Value → Value → Value → Result ShelfListing
make_listing slot product price_item price_count = do
  n ← elim (int_from 0 slot) [
    | some n ↦ ok n
    | none ↦ err (value_error "listing slot must be a non-negative integer")
  ]
  named ← elim (Reading.name_in product) [
    | some name ↦ ok name
    | none ↦ err (value_error "listing item identifiers must not be empty")
  ]
  priced ← elim (Reading.name_in price_item) [
    | some name ↦ ok name
    | none ↦ err (value_error "listing item identifiers must not be empty")
  ]
  price ← elim (int_from 1 price_count) [
    | some n ↦ ok n
    | none ↦ err (value_error "listing price count must be positive")
  ]
  ok (record { slot = n; product_id = named; price_item_id = priced; price_count = price })

unfoldable pub keys_match : Dict ℕ ShelfListing → Bool
keys_match [] = true
keys_match ((slot, listing) ∷ listings) = slot == listing.slot && keys_match listings

-- `ShelfShop(service, location, listings)`
unfoldable pub open_shop : BlockLocation → Dict ℕ ShelfListing → Result ShelfShop
open_shop loc listings =
    if keys_match listings
    then ok
        (record { location = loc; listings = listings; active = []; restored = []; completed = [] })
    else err (value_error "listing map keys must match listing.slot")

-- `_item_identifier`, `_item_count` and `_with_count`
unfoldable pub stock_identifier : ItemNbt → Result String
stock_identifier item = elim (Reading.identifier item) [
  | some name ↦ ok name
  | none ↦ err (value_error "shop stock item has no identifier")
]

unfoldable pub stock_count_of : ItemNbt → Result ℕ
stock_count_of item = elim (Reading.count item) [
  | some n ↦ ok n
  | none ↦ err (value_error "shop stock item has an invalid count")
]

unfoldable pub with_count : ItemNbt → ℕ → ItemNbt
with_count item n = Dict.insert "Count" (int (pos n)) (Dict.erase "count" item)

-- `StockReservation(...)`, with the tests that its arguments do not pass by their type.
unfoldable pub make_reservation :
    String → BlockLocation → ℕ → ItemNbt → ℕ → ℤ → Result StockReservation
make_reservation id loc slot item quantity revision = do
  require (not (id == "")) (value_error "reservation ID must not be empty")
  require (leb 1 quantity) (value_error "reservation quantity must be positive")
  require (leb_ℤ (pos 0) revision) (value_error "reservation shelf revision must be non-negative")
  name ← stock_identifier item
  n ← stock_count_of item
  require (n == quantity) (value_error "reservation item count must match its quantity")
  ok (record {
    reservation_id = id;
    location = loc;
    slot = slot;
    quantity = quantity;
    shelf_revision = revision;
    item = item;
  })

-- `StockReservation._matches`
unfoldable pub matches : StockReservation → StockReservation → Bool
matches r s =
    r.reservation_id == s.reservation_id
    && (r.location == s.location
        && (r.slot == s.slot
            && (r.quantity == s.quantity
                && (r.shelf_revision == s.shelf_revision && mapping_eq r.item s.item))))

-- The slots of the listings that a shelf of this capacity does not have.
unfoldable pub all_below : ℕ → List ℕ → Bool
all_below n [] = true
all_below n (slot ∷ slots) = ltb slot n && all_below n slots

-- A text of `uuid4` that is no one's identifier yet, if one of the texts drawn is.
unfoldable pub is_used : ShelfShop → String → Bool
is_used shop id =
    contains (keys shop.active) id || (contains shop.restored id || contains shop.completed id)

unfoldable pub draw_id : ShelfShop → List String → Option String
draw_id shop [] = none
draw_id shop (id ∷ draws) =
    let rest = draw_id shop draws in if is_used shop id then rest else some id
