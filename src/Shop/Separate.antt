-- ===== src/Shop/Separate.antt =====
-- The identifiers of the tokens of shelf_shop.py: active, restored and completed ones are apart.
use endstone_blockdata_api.Base.{
  ℕ, ◌≡◌, ◌⊎◌, sym, subst, String, true, false, ◌&&◌, some, List, [], ◌∷◌, ◌==◌, contains,
  if◌then◌else◌, Result, ok, arith, Result-cases, Bool-cases, Option-cases, string_eq, inl, inr,
}
use endstone_blockdata_api.Base.Dict
use endstone_blockdata_api.Base.Dict.{Dict, keys}
use endstone_blockdata_api.Nbt.{Value}
use endstone_blockdata_api.Model.{BlockLocation, BlockPatch, fail_if_changed}
use endstone_blockdata_api.Memory.{Blocks, apply}
use endstone_blockdata_api.Shop.Stock.{
  ShelfListing, StockReservation, ShelfShop, make_reservation, is_used, draw_id, with_count,
  open_shop,
}
use endstone_blockdata_api.Shop.Calls.{
  record_reservation, reserve, find_active, complete, plan_reserve, plan_restore, restore,
}
use endstone_blockdata_api.Shop.Tokens.{
  State, Step, reserves, completes, restores, writes, Steps, stay, step, is_consumed, matches-same,
  find_active-matches,
}

contains-erase :
    (j k : String) (d : Dict String StockReservation)
    → contains (keys (Dict.erase k d)) j ≡ (if j == k then false else contains (keys d) j)
unfolding Dict.erase
contains-erase j k [] = ground arith
contains-erase j k ((i, r) ∷ d) = ground (arith, contains-erase j k d)

contains-insert :
    (j k : String) (r : StockReservation) (d : Dict String StockReservation)
    → contains (keys (Dict.insert k r d)) j ≡ (if j == k then true else contains (keys d) j)
unfolding Dict.insert
contains-insert j k r [] = ground arith
contains-insert j k r ((i, s) ∷ d) = ground (arith, contains-insert j k r d)

draw_id-new :
    (shop : ShelfShop) (draws : List String) (id : String)
    → draw_id shop draws ≡ some id
    → is_used shop id ≡ false
unfolding draw_id
draw_id-new shop [] id h = ground (arith, h)
draw_id-new shop (d ∷ draws) id h = elim (Bool-cases (is_used shop d)) [
  | inl used ↦ draw_id-new shop draws id (ground (arith, used, h))
  | inr new ↦ ground (arith, new, h)
]

-- An identifier is active, or restored, or completed, or none of these.
abbrev pub IsSeparateAt : ShelfShop → String → Type 0
IsSeparateAt shop id =
    ((contains (keys shop.active) id && is_consumed shop id) ≡ false)
    × ((contains shop.completed id && contains shop.restored id) ≡ false)

find_active-fresh :
    (shop : ShelfShop) (token active : StockReservation)
    → find_active shop token ≡ ok active
    → (contains shop.completed token.reservation_id ≡ false)
      × (contains shop.restored token.reservation_id ≡ false)
unfolding find_active
find_active-fresh shop token active h = ground (arith, h)

module _ (digest : Value → ℕ) where
  complete-IsSeparateAt :
      (shop : ShelfShop) (token : StockReservation) (id : String)
      → IsSeparateAt shop id
      → IsSeparateAt (complete shop token).1 id
  unfolding complete
  complete-IsSeparateAt shop token id h = elim (Result-cases (find_active shop token)) [
    | inr (e, raised) ↦ ground (arith, raised, h.0, h.1)
    | inl (active, found) ↦ ground (
      arith,
      found,
      h.0,
      h.1,
      contains-erase id active.reservation_id shop.active,
      matches-same active token (find_active-matches shop token active found),
      (find_active-fresh shop token active found).0,
      (find_active-fresh shop token active found).1,
    )
  ]

  plan_restore-found :
      (shop : ShelfShop) (blocks : Blocks) (token active : StockReservation) (patch : BlockPatch)
      → plan_restore digest shop blocks token ≡ ok (active, patch)
      → find_active shop token ≡ ok active
  unfolding plan_restore
  plan_restore-found shop blocks token active patch h = ground (arith, h)

  restore-IsSeparateAt :
      (shop : ShelfShop) (blocks : Blocks) (token : StockReservation) (id : String)
      → IsSeparateAt shop id
      → IsSeparateAt (restore digest shop blocks token).1 id
  unfolding restore
  restore-IsSeparateAt shop blocks token id h =
      elim (Result-cases (plan_restore digest shop blocks token)) [
        | inr (e, raised) ↦ ground (arith, raised, h.0, h.1)
        | inl ((active, patch), planned) ↦
            let found = plan_restore-found shop blocks token active patch planned in
            ground (
              arith,
              planned,
              h.0,
              h.1,
              contains-erase id active.reservation_id shop.active,
              matches-same active token (find_active-matches shop token active found),
              (find_active-fresh shop token active found).0,
              (find_active-fresh shop token active found).1,
            )
      ]

  -- What `reserve` does to the shop: nothing, or one more active record under a new identifier.
  reserve-next :
      (draws : List String) (shop next : ShelfShop) (blocks written : Blocks) (slot quantity : ℕ)
      (result : Result StockReservation)
      → reserve digest draws shop blocks slot quantity ≡ some (result, next, written)
      → (next ≡ shop)
        ⊎ ((new : String) × (r : StockReservation) × (is_used shop new ≡ false)
            × (next ≡ record shop { active = Dict.insert new r shop.active }))
  unfolding reserve record_reservation
  reserve-next draws shop next blocks written slot quantity result h =
      elim (Result-cases (plan_reserve digest shop blocks slot quantity)) [
        | inr (e, raised) ↦ inl (ground (arith, raised, h))
        | inl ((patch, item), planned) ↦
            elim (Bool-cases (apply digest patch fail_if_changed blocks).0.succeeded) [
              | inr failed ↦ inl (ground (arith, planned, failed, h))
              | inl done ↦ elim (Option-cases (draw_id shop draws)) [
                | inl nothing ↦ ground (arith, planned, done, nothing, h)
                | inr (new, drawn) ↦
                    elim (Result-cases (
                      make_reservation new shop.location slot (with_count item quantity) quantity
                        (apply digest patch fail_if_changed blocks).0.resulting_revision)) [
                          | inr (e, raised) ↦ inl (ground (arith, planned, done, drawn, raised, h))
                          | inl (r, made) ↦ inr (
                            new,
                            r,
                            draw_id-new shop draws new drawn,
                            ground (arith, planned, done, drawn, made, h),
                          )
                        ]
              ]
            ]
      ]

  reserve-IsSeparateAt :
      (draws : List String) (shop next : ShelfShop) (blocks written : Blocks) (slot quantity : ℕ)
      (result : Result StockReservation) (id : String)
      → reserve digest draws shop blocks slot quantity ≡ some (result, next, written)
      → IsSeparateAt shop id
      → IsSeparateAt next id
  unfolding is_used
  reserve-IsSeparateAt draws shop next blocks written slot quantity result id h sep =
      elim (reserve-next draws shop next blocks written slot quantity result h) [
        | inl same ↦ subst (λ shop. IsSeparateAt shop id) (sym same) sep
        | inr (new, r, unused, same) ↦
            subst (λ shop. IsSeparateAt shop id) (sym same)
              (ground (arith, sep.0, unused, contains-insert id new r shop.active), sep.1)
      ]

  Step-IsSeparateAt :
      (s t : State) (id : String) → Step digest s t → IsSeparateAt s.0 id → IsSeparateAt t.0 id
  Step-IsSeparateAt _ _ id (reserves {shop} {next} {blocks} {written} draws slot quantity result h)
        sep =
      reserve-IsSeparateAt draws shop next blocks written slot quantity result id h sep
  Step-IsSeparateAt _ _ id (completes {shop} {blocks} token) sep =
      complete-IsSeparateAt shop token id sep
  Step-IsSeparateAt _ _ id (restores {shop} {blocks} token) sep =
      restore-IsSeparateAt shop blocks token id sep
  Step-IsSeparateAt _ _ id writes sep = sep

  Steps-IsSeparateAt :
      (s t : State) (id : String) → Steps digest s t → IsSeparateAt s.0 id → IsSeparateAt t.0 id
  Steps-IsSeparateAt s _ id stay sep = sep
  Steps-IsSeparateAt s u id (step {t = t} first rest) sep =
      Steps-IsSeparateAt t u id rest (Step-IsSeparateAt s t id first sep)

  open_shop-IsSeparateAt :
      (loc : BlockLocation) (listings : Dict ℕ ShelfListing) (shop : ShelfShop) (id : String)
      → open_shop loc listings ≡ ok shop
      → IsSeparateAt shop id
  unfolding open_shop
  open_shop-IsSeparateAt loc listings shop id h = ground (arith, h)

  -- Whatever calls a new shop has had, and whatever was written to the blocks meanwhile, an
  -- identifier is active, or restored, or completed, or none of these, and never two of them.
  pub reachable-IsSeparateAt :
      (loc : BlockLocation) (listings : Dict ℕ ShelfListing) (shop : ShelfShop) (blocks : Blocks)
      (t : State) (id : String)
      → open_shop loc listings ≡ ok shop
      → Steps digest (shop, blocks) t
      → IsSeparateAt t.0 id
  reachable-IsSeparateAt loc listings shop blocks t id opens steps =
      Steps-IsSeparateAt (shop, blocks) t id steps
        (open_shop-IsSeparateAt loc listings shop id opens)
