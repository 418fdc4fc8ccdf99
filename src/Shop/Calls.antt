-- ===== src/Shop/Calls.antt =====
-- The calls of `ShelfShop` of shelf_shop.py.
use endstone_blockdata_api.Base.{
  ℕ, ◌+◌, ◌-◌, String, not, Option, none, some, List, ◌∷◌, ◌==◌, contains, leb, if◌then◌else◌,
  Result, ok, err, value_error, key_error, runtime_error, ◌>>=◌, ◌>>◌, require, map_result,
  string_eq, nat_eq,
}
use endstone_blockdata_api.Base.Int.{ℤ, pos, int_eq}
use endstone_blockdata_api.Base.Dict
use endstone_blockdata_api.Base.Dict.{Dict, keys}
use endstone_blockdata_api.Base.Sort.{sort}
use endstone_blockdata_api.Nbt.{Value, int, ItemNbt, compound}
use endstone_blockdata_api.Model.{location_eq, BlockPatch, ApplyResult, fail_if_changed}
use endstone_blockdata_api.Memory.{Blocks, capture, apply}
use endstone_blockdata_api.Shelf.{ShelfView, open_shelf, capacity}
use endstone_blockdata_api.Shelf
use endstone_blockdata_api.Shop.Stock.{
  ShelfListing, ShelfQuote, StockReservation, ShelfShop, stock_identifier, stock_count_of,
  with_count, make_reservation, matches, all_below, draw_id,
}

-- The part of `reserve` after its write, with the identifier that the loop ended with.
unfoldable pub record_reservation :
    ShelfShop → ℕ → ℕ → ItemNbt → ℤ → String → Result StockReservation × ShelfShop
record_reservation shop slot quantity item revision id =
    elim (make_reservation id shop.location slot (with_count item quantity) quantity revision) [
      | err e ↦ (err e, shop)
      | ok r ↦ (ok r, record shop { active = Dict.insert id r shop.active })
    ]

-- The tests that `complete` and `restore` begin with: the record that the token is for.
unfoldable pub find_active : ShelfShop → StockReservation → Result StockReservation
find_active shop token = do
  require (not (contains shop.completed token.reservation_id))
      (runtime_error "reservation has already been completed")
  require (not (contains shop.restored token.reservation_id))
      (runtime_error "reservation has already been restored")
  active ← elim (Dict.lookup token.reservation_id shop.active) [
    | some active ↦ ok active
    | none ↦ err (runtime_error "reservation is not active for this shop")
  ]
  require (matches active token)
      (runtime_error "reservation token does not match the active record")
  require (active.location == shop.location)
      (value_error "reservation belongs to a different shelf")
  ok active

unfoldable pub complete : ShelfShop → StockReservation → Result (Unit {0}) × ShelfShop
complete shop token = elim (find_active shop token) [
  | err e ↦ (err e, shop)
  | ok active ↦ (
    ok tt,
    record shop {
      active = Dict.erase active.reservation_id shop.active;
      completed = active.reservation_id ∷ shop.completed;
    },
  )
]

-- What `restore` puts back.
unfoldable pub restored_item : Option ItemNbt → StockReservation → Result ItemNbt
restored_item none active = ok active.item
restored_item (some current) active = do
  there ← stock_identifier current
  reserved ← stock_identifier active.item
  require (there == reserved) (runtime_error "cannot restore stock over a different shelf item")
  n ← stock_count_of current
  require (leb (n + active.quantity) 255)
      (runtime_error "restored stock would exceed the item count limit")
  ok (with_count current (n + active.quantity))

-- The stock of a quote: nothing where the slot holds another item.
unfoldable pub quoted_stock : ShelfListing → Option ItemNbt → Result ℕ
quoted_stock listing none = ok 0
quoted_stock listing (some item) = do
  name ← stock_identifier item
  n ← if name == listing.product_id then stock_count_of item else ok 0
  ok n

unfoldable pub quote : ShelfView → ℕ × ShelfListing → Result ShelfQuote
quote shelf (slot, listing) = do
  current ← Shelf.get_item shelf (int (pos slot))
  n ← quoted_stock listing current
  ok (record {
    listing = listing;
    stock_count = n;
    item = current;
    shelf_revision = shelf.snapshot.revision;
  })

module _ (digest : Value → ℕ) where
  -- `_capture`; the in-memory adapter captures every location.
  unfoldable pub capture_shop : ShelfShop → Blocks → Result ShelfView
  capture_shop shop blocks = do
    shelf ← open_shelf (capture digest shop.location blocks)
    require (all_below (capacity shelf) (keys shop.listings))
        (value_error "listing slot is outside this shelf's capacity")
    ok shelf

  -- `quotes`: in the order of the slots.
  unfoldable pub quotes : ShelfShop → Blocks → Result (List ShelfQuote)
  quotes shop blocks = do
    shelf ← capture_shop shop blocks
    map_result (quote shelf) (sort (λ a b. leb a.0 b.0) shop.listings)

  -- `reserve` up to its write: the patch and the item that is there.
  unfoldable pub plan_reserve : ShelfShop → Blocks → ℕ → ℕ → Result (BlockPatch × ItemNbt)
  plan_reserve shop blocks slot quantity = do
    require (leb 1 quantity) (value_error "reservation quantity must be positive")
    listing ← elim (Dict.lookup slot shop.listings) [
      | some listing ↦ ok listing
      | none ↦ err (key_error "shelf slot has no shop listing")
    ]
    shelf ← capture_shop shop blocks
    current ← Shelf.get_item shelf (int (pos slot))
    item ← elim current [
      | some item ↦ ok item
      | none ↦ err (runtime_error "listed shelf slot does not contain its configured product")
    ]
    name ← stock_identifier item
    require (name == listing.product_id)
        (runtime_error "listed shelf slot does not contain its configured product")
    available ← stock_count_of item
    require (leb quantity available) (runtime_error "shop shelf does not have enough stock")
    patch ←
        if available == quantity
        then Shelf.clear_item shelf (int (pos slot))
        else Shelf.patch_item shelf (int (pos slot))
            (compound (with_count item (available - quantity)))
    ok (patch, item)

  -- `reserve`: nothing where the texts drawn do not end the loop that looks for a new identifier.
  unfoldable pub reserve :
      List String
      → ShelfShop
      → Blocks
      → ℕ
      → ℕ
      → Option (Result StockReservation × ShelfShop × Blocks)
  reserve draws shop blocks slot quantity = elim (plan_reserve shop blocks slot quantity) [
    | err e ↦ some (err e, shop, blocks)
    | ok (patch, item) ↦
        let (result, written) = apply digest patch fail_if_changed blocks in
        if not result.succeeded
        then some (err (runtime_error "shop stock changed before reservation"), shop, written)
        else elim (draw_id shop draws) [
          | none ↦ none
          | some id ↦
              let (token, next) =
                record_reservation shop slot quantity item result.resulting_revision id in
              some (token, next, written)
        ]
  ]

  -- `restore` up to its write.
  unfoldable pub plan_restore :
      ShelfShop → Blocks → StockReservation → Result (StockReservation × BlockPatch)
  plan_restore shop blocks token = do
    active ← find_active shop token
    shelf ← capture_shop shop blocks
    require (shelf.snapshot.revision == active.shelf_revision)
        (runtime_error "reservation is stale because the shelf changed after stock was reserved")
    current ← Shelf.get_item shelf (int (pos active.slot))
    item ← restored_item current active
    patch ← Shelf.patch_item shelf (int (pos active.slot)) (compound item)
    ok (active, patch)

  unfoldable pub restore :
      ShelfShop → Blocks → StockReservation → Result ApplyResult × ShelfShop × Blocks
  restore shop blocks token = elim (plan_restore shop blocks token) [
    | err e ↦ (err e, shop, blocks)
    | ok (active, patch) ↦
        let (result, written) = apply digest patch fail_if_changed blocks in
        (
          ok result,
          if result.succeeded
              then record shop {
                active = Dict.erase active.reservation_id shop.active;
                restored = token.reservation_id ∷ shop.restored;
              }
              else shop,
          written,
        )
  ]

  -- `replace_stock`
  unfoldable pub replace_stock : ShelfShop → Blocks → Value → Result ApplyResult × Blocks
  replace_stock shop blocks items =
      elim (capture_shop shop blocks >>= λ shelf. Shelf.replace_items shelf items) [
        | err e ↦ (err e, blocks)
        | ok patch ↦
            let (result, written) = apply digest patch fail_if_changed blocks in
            (ok result, written)
      ]
