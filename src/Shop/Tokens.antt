-- ===== src/Shop/Tokens.antt =====
-- The tokens of shelf_shop.py over any sequence of calls.
use endstone_blockdata_api.Base.{
  ℕ, ◌≡◌, sym, subst, String, Bool, true, ◌||◌, some, List, contains, Result, ok, err, Error, arith,
  Result-cases, string_eq, inl, inr,
}
use endstone_blockdata_api.Nbt.{Value}
use endstone_blockdata_api.Model.{ApplyResult}
use endstone_blockdata_api.Memory.{Blocks}
use endstone_blockdata_api.Shop.Stock.{StockReservation, ShelfShop, matches}
use endstone_blockdata_api.Shop.Calls.{
  record_reservation, reserve, find_active, complete, plan_restore, restore,
}

-- A shop with the blocks of its adapter.
abbrev pub State : Type 0
State = ShelfShop × Blocks

-- A call that returned or raised, or a write of the blocks by anyone else.
pub data Step (digest : Value → ℕ) : State → State → Type 0 where
  reserves :
      {shop next : ShelfShop} {blocks written : Blocks} (draws : List String) (slot quantity : ℕ)
      (result : Result StockReservation)
      → reserve digest draws shop blocks slot quantity ≡ some (result, next, written)
      → Step digest (shop, blocks) (next, written)
  completes :
      {shop : ShelfShop} {blocks : Blocks} (token : StockReservation)
      → Step digest (shop, blocks) ((complete shop token).1, blocks)
  restores :
      {shop : ShelfShop} {blocks : Blocks} (token : StockReservation)
      → Step digest
          (shop, blocks)
          ((restore digest shop blocks token).1, (restore digest shop blocks token).2)
  writes : {shop : ShelfShop} {blocks written : Blocks} → Step digest (shop, blocks) (shop, written)

pub data Steps (digest : Value → ℕ) : State → State → Type 0 where
  stay : {s : State} → Steps digest s s
  step : {s t u : State} → Step digest s t → Steps digest t u → Steps digest s u

-- The identifier was completed or restored.
abbrev pub is_consumed : ShelfShop → String → Bool
is_consumed shop id = contains shop.completed id || contains shop.restored id

pub matches-same :
    (r s : StockReservation) → matches r s ≡ true → r.reservation_id ≡ s.reservation_id
unfolding matches
matches-same r s h = ground (arith, h)

pub find_active-matches :
    (shop : ShelfShop) (token active : StockReservation)
    → find_active shop token ≡ ok active
    → matches active token ≡ true
unfolding find_active
find_active-matches shop token active h = ground (arith, h)

module _ (digest : Value → ℕ) where
  reserve-kept :
      (draws : List String) (shop next : ShelfShop) (blocks written : Blocks) (slot quantity : ℕ)
      (result : Result StockReservation)
      → reserve digest draws shop blocks slot quantity ≡ some (result, next, written)
      → (next.completed ≡ shop.completed) × (next.restored ≡ shop.restored)
  unfolding reserve record_reservation
  reserve-kept draws shop next blocks written slot quantity result h = ground (arith, h)

  complete-kept :
      (shop : ShelfShop) (token : StockReservation) (id : String)
      → is_consumed shop id ≡ true
      → is_consumed (complete shop token).1 id ≡ true
  unfolding complete
  complete-kept shop token id h = ground (arith, h)

  restore-kept :
      (shop : ShelfShop) (blocks : Blocks) (token : StockReservation) (id : String)
      → is_consumed shop id ≡ true
      → is_consumed (restore digest shop blocks token).1 id ≡ true
  unfolding restore
  restore-kept shop blocks token id h = ground (arith, h)

  consumed-Step :
      (s t : State) (id : String)
      → Step digest s t
      → is_consumed s.0 id ≡ true
      → is_consumed t.0 id ≡ true
  consumed-Step _ _ id (reserves {shop} {next} {blocks} {written} draws slot quantity result h)
        consumed =
      ground (arith, consumed, reserve-kept draws shop next blocks written slot quantity result h)
  consumed-Step _ _ id (completes {shop} {blocks} token) consumed =
      complete-kept shop token id consumed
  consumed-Step _ _ id (restores {shop} {blocks} token) consumed =
      restore-kept shop blocks token id consumed
  consumed-Step _ _ id writes consumed = consumed

  consumed-Steps :
      (s t : State) (id : String)
      → Steps digest s t
      → is_consumed s.0 id ≡ true
      → is_consumed t.0 id ≡ true
  consumed-Steps s _ id stay consumed = consumed
  consumed-Steps s u id (step {t = t} first rest) consumed =
      consumed-Steps t u id rest (consumed-Step s t id first consumed)

  -- No terminal call takes the token: each raises, and changes nothing.
  abbrev pub IsRefused : State → StockReservation → Type 0
  IsRefused s token =
      ((e : Error) × (complete s.0 token ≡ (err e, s.0)))
      × ((e : Error) × (restore digest s.0 s.1 token ≡ (err e, s.0, s.1)))

  find_active-consumed :
      (shop : ShelfShop) (token : StockReservation)
      → is_consumed shop token.reservation_id ≡ true
      → (e : Error) × (find_active shop token ≡ err e)
  unfolding find_active
  find_active-consumed shop token consumed = elim (Result-cases (find_active shop token)) [
    | inl (active, found) ↦ ground (arith, found, consumed)
    | inr raised ↦ raised
  ]

  consumed-IsRefused :
      (s : State) (token : StockReservation)
      → is_consumed s.0 token.reservation_id ≡ true
      → IsRefused s token
  unfolding complete restore plan_restore
  consumed-IsRefused s token consumed =
      let (e, raised) = find_active-consumed s.0 token consumed in
      ((e, ground (arith, raised)), (e, ground (arith, raised)))

  complete-consumes :
      (shop : ShelfShop) (token : StockReservation)
      → (complete shop token).0 ≡ ok tt
      → is_consumed (complete shop token).1 token.reservation_id ≡ true
  unfolding complete
  complete-consumes shop token h = elim (Result-cases (find_active shop token)) [
    | inr (e, raised) ↦ ground (arith, raised, h)
    | inl (active, found) ↦
        ground
          (arith, found, matches-same active token (find_active-matches shop token active found))
  ]

  restore-consumes :
      (shop : ShelfShop) (blocks : Blocks) (token : StockReservation) (result : ApplyResult)
      → (restore digest shop blocks token).0 ≡ ok result
      → result.succeeded ≡ true
      → is_consumed (restore digest shop blocks token).1 token.reservation_id ≡ true
  unfolding restore
  restore-consumes shop blocks token result h success = ground (arith, h, success)

  -- Once a token was completed, no token with its identifier is completed or restored again,
  -- whatever calls and writes come in between: each attempt raises and changes nothing.
  pub complete_once :
      (shop : ShelfShop) (blocks : Blocks) (token again : StockReservation) (t : State)
      → (complete shop token).0 ≡ ok tt
      → Steps digest ((complete shop token).1, blocks) t
      → again.reservation_id ≡ token.reservation_id
      → IsRefused t again
  complete_once shop blocks token again t done later same = consumed-IsRefused t again (
      subst (λ id. is_consumed t.0 id ≡ true) (sym same)
        (consumed-Steps _ t token.reservation_id later (complete-consumes shop token done)))

  -- Once a token was restored, no token with its identifier is completed or restored again,
  -- whatever calls and writes come in between: each attempt raises and changes nothing.
  pub restore_once :
      (shop : ShelfShop) (blocks : Blocks) (token again : StockReservation) (result : ApplyResult)
      (t : State)
      → (restore digest shop blocks token).0 ≡ ok result
      → result.succeeded ≡ true
      → Steps digest ((restore digest shop blocks token).1, (restore digest shop blocks token).2) t
      → again.reservation_id ≡ token.reservation_id
      → IsRefused t again
  restore_once shop blocks token again result t done success later same =
      consumed-IsRefused t again (
        subst (λ id. is_consumed t.0 id ≡ true) (sym same)
          (consumed-Steps _ t token.reservation_id later
            (restore-consumes shop blocks token result done success)))
