-- ===== src/Shelf/Slots.antt =====
-- Which captures open as a shelf, and what the view shows of each slot.
use endstone_blockdata_api.Base.{
  ℕ, ◌≡◌, ◌≢◌, ◌↔◌, refl, sym, subst, String, true, false, some, List, [], ◌∷◌, contains, arith, ok,
  string_eq, nat_eq, inl, inr, Option-cases, eq_iff, false≢true,
}
use endstone_blockdata_api.Base.Int.{ℤ, pos, ◌≤ℤ◌, ◌<ℤ◌, int_eq}
use endstone_blockdata_api.Base.Lists.{All}
use endstone_blockdata_api.Model.{InventorySlotSnapshot, BlockEntitySnapshot, BlockSnapshot}
use endstone_blockdata_api.Shelf.{
  ShelfKind, shelf, chiseled_bookshelf, ShelfView, kind_capacity, kind_of, check_slots, open_actor,
  open_shelf,
}

abbrev InRange : ℕ → InventorySlotSnapshot → Type 0
InRange n x = (pos 0 ≤ℤ x.slot) × (x.slot <ℤ pos n)

-- No slot of the inventory is among `occupied`, or there twice.
abbrev pub IsFresh : List ℤ → List InventorySlotSnapshot → Type 0
IsFresh occupied [] = Unit
IsFresh occupied (x ∷ xs) = (contains occupied x.slot ≡ false) × IsFresh (x.slot ∷ occupied) xs

check_slots-ok :
    (n : ℕ) (occupied : List ℤ) (xs : List InventorySlotSnapshot)
    → check_slots n occupied xs ≡ ok tt
    → All (InRange n) xs × IsFresh occupied xs
unfolding check_slots
check_slots-ok n occupied [] h = (tt, tt)
check_slots-ok n occupied (x ∷ xs) h = ground (arith, check_slots-ok n (x.slot ∷ occupied) xs)

ok-check_slots :
    (n : ℕ) (occupied : List ℤ) (xs : List InventorySlotSnapshot)
    → All (InRange n) xs
    → IsFresh occupied xs
    → check_slots n occupied xs ≡ ok tt
unfolding check_slots
ok-check_slots n occupied [] h f = refl
ok-check_slots n occupied (x ∷ xs) h f =
    ground (arith, ok-check_slots n (x.slot ∷ occupied) xs h.1 f.1)

abbrev pub type_name : ShelfKind → String
type_name shelf = "minecraft:shelf"
type_name chiseled_bookshelf = "minecraft:chiseled_bookshelf"

-- A complete capture of a shelf of this kind.
pub record IsShelf (k : ShelfKind) (e : BlockEntitySnapshot) (s : BlockSnapshot) : Type 0 where
  pub actor : s.block_entity ≡ some e
  pub captured : s.block_entity_status ≡ "captured"
  pub container : e.is_container ≡ true
  pub typed : e.type ≡ type_name k
  pub sized : e.container_size ≡ pos (kind_capacity k)
  pub in_range : All (InRange (kind_capacity k)) e.inventory
  pub distinct : IsFresh [] e.inventory

kind_of-ok : (t : String) (k : ShelfKind) → kind_of t ≡ ok k → t ≡ type_name k
unfolding kind_of
kind_of-ok t shelf h = ground arith
kind_of-ok t chiseled_bookshelf h = ground arith

shelf_names_differ : ◌≢◌ {A = String} "minecraft:shelf" "minecraft:chiseled_bookshelf"
shelf_names_differ p = false≢true ((eq_iff "minecraft:shelf" "minecraft:chiseled_bookshelf").1 p)

ok-kind_of : (k : ShelfKind) → kind_of (type_name k) ≡ ok k
unfolding kind_of
ok-kind_of shelf = ground arith
ok-kind_of chiseled_bookshelf = ground (arith, shelf_names_differ)

open_actor-ok :
    (s : BlockSnapshot) (e : BlockEntitySnapshot) (v : ShelfView)
    → open_actor s e ≡ ok v
    → (e.type ≡ type_name v.kind)
      × (e.container_size ≡ pos (kind_capacity v.kind))
      × (check_slots (kind_capacity v.kind) [] e.inventory ≡ ok tt)
      × (v.snapshot ≡ s)
      × (v.actor ≡ e)
unfolding open_actor
open_actor-ok s e v h = ground (arith, kind_of-ok e.type v.kind)

open_shelf-parts :
    (s : BlockSnapshot) (v : ShelfView)
    → open_shelf s ≡ ok v
    → (e : BlockEntitySnapshot) × (s.block_entity ≡ some e)
      × (s.block_entity_status ≡ "captured")
      × (e.is_container ≡ true)
      × (open_actor s e ≡ ok v)
unfolding open_shelf
open_shelf-parts s v h = elim (Option-cases s.block_entity) [
  | inl n ↦ absurd (ground arith)
  | inr (e, p) ↦ (e, p, ground arith, ground arith, ground arith)
]

open_shelf-IsShelf :
    (s : BlockSnapshot) (v : ShelfView)
    → open_shelf s ≡ ok v
    → (v.snapshot ≡ s) × IsShelf v.kind v.actor s
open_shelf-IsShelf s v h =
    let (e, actor, captured, container, opened) = open_shelf-parts s v h in
    let (typed, sized, checked, same, held) = open_actor-ok s e v opened in
    let (in_range, distinct) = check_slots-ok (kind_capacity v.kind) [] e.inventory checked in
    (
      same,
      subst (λ a. IsShelf v.kind a s) (sym held)
          (record {
            actor = actor;
            captured = captured;
            container = container;
            typed = typed;
            sized = sized;
            in_range = in_range;
            distinct = distinct;
          }),
    )

IsShelf-open_actor :
    (s : BlockSnapshot) (v : ShelfView)
    → v.snapshot ≡ s
    → IsShelf v.kind v.actor s
    → open_actor s v.actor ≡ ok v
unfolding open_actor
IsShelf-open_actor s v same h =
    rw (h.typed, ok-kind_of v.kind)
      (ground
        (arith, ok-check_slots (kind_capacity v.kind) [] v.actor.inventory h.in_range h.distinct))

IsShelf-open_shelf :
    (s : BlockSnapshot) (v : ShelfView)
    → v.snapshot ≡ s
    → IsShelf v.kind v.actor s
    → open_shelf s ≡ ok v
unfolding open_shelf
IsShelf-open_shelf s v same h =
    ground (arith, IsShelf-open_actor s v same h, h.actor, h.captured, h.container)

-- A snapshot opens as a shelf view exactly when it is a complete capture of a shelf of that kind:
-- the actor of that type and of its exact capacity, every slot in range and no slot twice. The
-- view then holds the snapshot and its actor.
pub open_shelf_iff :
    (s : BlockSnapshot) (v : ShelfView)
    → (open_shelf s ≡ ok v) ↔ ((v.snapshot ≡ s) × IsShelf v.kind v.actor s)
open_shelf_iff s v = (open_shelf-IsShelf s v, λ h. IsShelf-open_shelf s v h.0 h.1)
