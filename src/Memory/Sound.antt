-- ===== src/Memory/Sound.antt =====
-- What every block that the adapter holds satisfies, after any sequence of calls.
use endstone_blockdata_api.Base.{
  ℕ, ◌≡◌, refl, none, some, List, [], ◌∷◌, arith, if◌then◌else◌, Bool-cases, inl, inr, Option-cases,
  subst, sym, ◌∙◌,
}
use mathlib.Core.Path.{subst₂}
use endstone_blockdata_api.Base.Dict
use endstone_blockdata_api.Nbt.{Value}
use endstone_blockdata_api.Model.{
  ConflictPolicy, BlockLocation, location_eq, BlockEntitySnapshot, BlockSnapshot, default_snapshot,
  refresh_revision, revision_of, snapshot_json, BlockPatch,
}
use endstone_blockdata_api.Memory.{
  Blocks, touches_entity, generic_entity, entity_or_generic, patch_entity, patch_block,
  patch_snapshot, stored, capture, apply,
}
use endstone_blockdata_api.Memory.Laws.{patched, apply_succeeded, apply_failed}
use endstone_blockdata_api.Memory.Invariant.{IsWellFormed, patch_entity-IsWellFormed}

-- A block as the adapter holds it: at its own location, with its revision up to date.
pub record IsSound (digest : Value → ℕ) (loc : BlockLocation) (s : BlockSnapshot) : Type 0 where
  pub placed : s.location ≡ loc
  pub current : s.revision ≡ revision_of digest s
  pub entity : (e : BlockEntitySnapshot) → s.block_entity ≡ some e → IsWellFormed e

generic-IsWellFormed : IsWellFormed generic_entity
generic-IsWellFormed = record { distinct = tt; in_bounds = tt; container = inl refl }

module _ (digest : Value → ℕ) where
  pub record AllSound (blocks : Blocks) : Type 0 where
    pub at :
        (loc : BlockLocation) (s : BlockSnapshot)
        → Dict.lookup loc blocks ≡ some s
        → IsSound digest loc s

  pub AllSound-nil : AllSound []
  AllSound-nil = record { at = λ loc s h. cc (Dict.lookup-nil {V = BlockSnapshot} loc) }

  pub refresh-IsSound :
      (loc : BlockLocation) (s : BlockSnapshot)
      → s.location ≡ loc
      → ((e : BlockEntitySnapshot) → s.block_entity ≡ some e → IsWellFormed e)
      → IsSound digest loc (refresh_revision digest s)
  unfolding refresh_revision revision_of snapshot_json
  refresh-IsSound loc s at wf = record { placed = at; current = refl; entity = wf }

  stored-none :
      (loc : BlockLocation) (blocks : Blocks)
      → Dict.lookup loc blocks ≡ none
      → stored digest loc blocks ≡ default_snapshot loc
  unfolding stored
  stored-none loc blocks e = rw (e, stored)

  stored-some :
      (loc : BlockLocation) (blocks : Blocks) (s : BlockSnapshot)
      → Dict.lookup loc blocks ≡ some s
      → stored digest loc blocks ≡ s
  unfolding stored
  stored-some loc blocks s e = rw (e, stored)

  -- The parts of soundness that do not speak of the revision.
  abbrev IsHeld : BlockLocation → BlockSnapshot → Type 0
  IsHeld loc s =
      (s.location ≡ loc) × ((e : BlockEntitySnapshot) → s.block_entity ≡ some e → IsWellFormed e)

  stored-IsHeld :
      (loc : BlockLocation) (blocks : Blocks)
      → AllSound blocks
      → IsHeld loc (stored digest loc blocks)
  stored-IsHeld loc blocks h = elim (Option-cases (Dict.lookup loc blocks)) [
    | inl e ↦ subst (IsHeld loc) (sym (stored-none loc blocks e)) (refl, λ x p. cc)
    | inr (s, e) ↦
        subst (IsHeld loc) (sym (stored-some loc blocks s e))
          ((h.at loc s e).placed, (h.at loc s e).entity)
  ]

  pub capture-IsSound :
      (loc : BlockLocation) (blocks : Blocks)
      → AllSound blocks
      → IsSound digest loc (capture digest loc blocks)
  unfolding capture
  capture-IsSound loc blocks h =
      let held = stored-IsHeld loc blocks h in
      refresh-IsSound loc (stored digest loc blocks) held.0 held.1

  entity_or_generic-IsWellFormed :
      (s : BlockSnapshot)
      → ((e : BlockEntitySnapshot) → s.block_entity ≡ some e → IsWellFormed e)
      → IsWellFormed (entity_or_generic s.block_entity)
  entity_or_generic-IsWellFormed s h = elim (Option-cases s.block_entity) [
    | inl e ↦ rw e generic-IsWellFormed
    | inr (x, e) ↦ rw e (h x e)
  ]

  entity-patch_snapshot :
      (p : BlockPatch) (s : BlockSnapshot)
      → (patch_snapshot p s).block_entity ≡ (
          if touches_entity p
          then some (patch_entity p (entity_or_generic s.block_entity))
          else s.block_entity)
  unfolding patch_snapshot patch_block
  entity-patch_snapshot p s = ground arith

  location-patch_snapshot :
      (p : BlockPatch) (s : BlockSnapshot) → (patch_snapshot p s).location ≡ s.location
  unfolding patch_snapshot patch_block
  location-patch_snapshot p s = ground arith

  patch_snapshot-IsWellFormed :
      (p : BlockPatch) (s : BlockSnapshot)
      → ((e : BlockEntitySnapshot) → s.block_entity ≡ some e → IsWellFormed e)
      → (e : BlockEntitySnapshot) → (patch_snapshot p s).block_entity ≡ some e
      → IsWellFormed e
  patch_snapshot-IsWellFormed p s h e eq = elim (Bool-cases (touches_entity p)) [
    | inl t ↦ subst IsWellFormed (ground (arith, entity-patch_snapshot p s)) (
        patch_entity-IsWellFormed p (entity_or_generic s.block_entity)
          (entity_or_generic-IsWellFormed s h))
    | inr n ↦ h e (ground (arith, entity-patch_snapshot p s))
  ]

  patched-IsSound :
      (p : BlockPatch) (blocks : Blocks)
      → AllSound blocks
      → IsSound digest p.location (patched digest p blocks)
  unfolding patched
  patched-IsSound p blocks h =
      let s = capture digest p.location blocks in
      let sound = capture-IsSound p.location blocks h in
      refresh-IsSound p.location (patch_snapshot p s) (location-patch_snapshot p s ∙ sound.placed)
        (patch_snapshot-IsWellFormed p s sound.entity)

  pub insert-AllSound :
      (loc : BlockLocation) (s : BlockSnapshot) (blocks : Blocks)
      → IsSound digest loc s
      → AllSound blocks
      → AllSound (Dict.insert loc s blocks)
  insert-AllSound loc s blocks sound h = record {
    at = λ at x e. elim (location_eq.dec at loc) [
      | yes same ↦
          subst₂ (IsSound digest) (sym same) (ground (arith, Dict.lookup-insert at loc s blocks))
            sound
      | no other ↦ h.at at x (ground (arith, Dict.lookup-insert at loc s blocks))
    ];
  }

  -- Every `apply`, whatever its patch, its policy and its result, keeps all blocks sound: at their
  -- locations, with current revisions and with well-formed inventories.
  pub apply-AllSound :
      (p : BlockPatch) (policy : ConflictPolicy) (blocks : Blocks)
      → AllSound blocks
      → AllSound (apply digest p policy blocks).1
  apply-AllSound p policy blocks h = elim (Bool-cases (apply digest p policy blocks).0.succeeded) [
    | inl done ↦
        rw (apply_succeeded digest p policy blocks done) (
          insert-AllSound p.location (patched digest p blocks) blocks (patched-IsSound p blocks h)
            h)
    | inr failed ↦ rw (apply_failed digest p policy blocks failed) h
  ]

  -- The blocks after a sequence of calls.
  unfoldable pub apply_each : List (BlockPatch × ConflictPolicy) → Blocks → Blocks
  apply_each [] blocks = blocks
  apply_each ((p, policy) ∷ calls) blocks = apply_each calls (apply digest p policy blocks).1

  apply_each-AllSound :
      (calls : List (BlockPatch × ConflictPolicy)) (blocks : Blocks)
      → AllSound blocks
      → AllSound (apply_each calls blocks)
  unfolding apply_each
  apply_each-AllSound [] blocks h = h
  apply_each-AllSound ((p, policy) ∷ calls) blocks h =
      apply_each-AllSound calls _ (apply-AllSound p policy blocks h)

  -- Whatever calls a new adapter has had, a capture is at the location asked for, its revision is
  -- that of its contents, and its inventory has distinct slots below the container's size.
  pub capture_reachable :
      (calls : List (BlockPatch × ConflictPolicy)) (loc : BlockLocation)
      → IsSound digest loc (capture digest loc (apply_each calls []))
  capture_reachable calls loc = capture-IsSound loc _ (apply_each-AllSound calls [] AllSound-nil)
