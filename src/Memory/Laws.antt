-- ===== src/Memory/Laws.antt =====
-- `capture` after `apply`: optimistic concurrency of `InMemoryAdapter`.
use endstone_blockdata_api.Base.{
  ℕ, ◌≡◌, ◌≢◌, refl, ap, true, false, some, arith, ◌==◌, ==_refl, if◌then◌else◌,
}
use endstone_blockdata_api.Base.Int.{ℤ, int_eq}
use endstone_blockdata_api.Base.Dict
use endstone_blockdata_api.Nbt.{Value}
use endstone_blockdata_api.Model.{
  ConflictPolicy, fail_if_changed, BlockLocation, location_eq, BlockSnapshot, refresh_revision,
  revision_of, snapshot_json, BlockPatch, ApplyResult,
}
use endstone_blockdata_api.Memory.{Blocks, patch_snapshot, capture, apply}

module _ (digest : Value → ℕ) where
  -- The revision does not depend on the revision that a snapshot carries.
  pub refresh_revision_idem :
      (s : BlockSnapshot)
      → refresh_revision digest (refresh_revision digest s) ≡ refresh_revision digest s
  unfolding refresh_revision revision_of snapshot_json
  refresh_revision_idem s = refl

  pub capture-insert :
      (loc at : BlockLocation) (s : BlockSnapshot) (blocks : Blocks)
      → capture digest loc (Dict.insert at s blocks)
        ≡ (if loc == at then refresh_revision digest s else capture digest loc blocks)
  unfolding capture
  capture-insert loc at s blocks = ground (arith, Dict.lookup-insert loc at s blocks)

  -- The block that a successful `apply` leaves.
  unfoldable pub patched : BlockPatch → Blocks → BlockSnapshot
  patched p blocks = refresh_revision digest (patch_snapshot p (capture digest p.location blocks))

  abbrev pub applied : ℤ → ApplyResult
  applied r = record {
    succeeded = true;
    status = "applied";
    message = "applied";
    resulting_revision = r;
  }

  pub apply_succeeded :
      (p : BlockPatch) (policy : ConflictPolicy) (blocks : Blocks)
      → (apply digest p policy blocks).0.succeeded ≡ true
      → apply digest p policy blocks
        ≡ (applied (patched p blocks).revision, Dict.insert p.location (patched p blocks) blocks)
  unfolding apply patched
  apply_succeeded p policy blocks h = ground arith

  -- An `apply` that does not succeed changes no block, whatever the reason.
  pub apply_failed :
      (p : BlockPatch) (policy : ConflictPolicy) (blocks : Blocks)
      → (apply digest p policy blocks).0.succeeded ≡ false
      → (apply digest p policy blocks).1 ≡ blocks
  unfolding apply
  apply_failed p policy blocks h = ground arith

  refresh_patched :
      (p : BlockPatch) (blocks : Blocks)
      → refresh_revision digest (patched p blocks) ≡ patched p blocks
  unfolding patched
  refresh_patched p blocks = refresh_revision_idem _

  -- After an `apply` that succeeded, a capture at the patch's location is the patched block, every
  -- other location is captured as before, and the revision in the result is that of the capture.
  pub capture-apply :
      (p : BlockPatch) (policy : ConflictPolicy) (blocks : Blocks) (loc : BlockLocation)
      → (apply digest p policy blocks).0.succeeded ≡ true
      → (capture digest loc (apply digest p policy blocks).1
          ≡ (if loc == p.location then patched p blocks else capture digest loc blocks))
        × ((apply digest p policy blocks).0.resulting_revision
            ≡ (capture digest p.location (apply digest p policy blocks).1).revision)
  capture-apply p policy blocks loc h =
      let here = p.location in
      rw
        (
          apply_succeeded p policy blocks h,
          capture-insert loc here (patched p blocks) blocks,
          capture-insert here here (patched p blocks) blocks,
          refresh_patched,
        )
        (refl, rw ==_refl)

  -- With `FAIL_IF_CHANGED`, a patch is applied exactly when the revision that it expects is the
  -- one that a capture shows. Otherwise the result is a conflict that reports the shown revision.
  pub apply_compare_and_swap :
      (p : BlockPatch) (blocks : Blocks) (r : ℤ)
      → p.expected_revision ≡ some r
      → let current = (capture digest p.location blocks).revision in
        apply digest p fail_if_changed blocks ≡ (
          if r == current
          then (
            applied (patched p blocks).revision,
            Dict.insert p.location (patched p blocks) blocks,
          )
          else (
            record {
              succeeded = false;
              status = "conflict";
              message = "revision changed";
              resulting_revision = current;
            },
            blocks,
          ))
  unfolding apply patched
  apply_compare_and_swap p blocks r h = ground arith

  -- Of two patches built from one capture, the second is refused once the first has changed the
  -- revision: its result is a conflict and it changes nothing.
  pub apply_lost_update :
      (p q : BlockPatch) (blocks : Blocks) (r : ℤ)
      → p.expected_revision ≡ some r
      → q.expected_revision ≡ some r
      → q.location ≡ p.location
      → (apply digest p fail_if_changed blocks).0.succeeded ≡ true
      → r ≢ (apply digest p fail_if_changed blocks).0.resulting_revision
      → let after = (apply digest p fail_if_changed blocks).1 in
        ((apply digest q fail_if_changed after).0.status ≡ "conflict")
        × ((apply digest q fail_if_changed after).1 ≡ after)
  apply_lost_update p q blocks r hp hq same done changed =
      let after = (apply digest p fail_if_changed blocks).1 in
      let shown = (capture-apply p fail_if_changed blocks p.location done).1 in
      rw (apply_compare_and_swap q after r hq)
        (ground (arith, shown, ap (λ l. capture digest l after) same))
