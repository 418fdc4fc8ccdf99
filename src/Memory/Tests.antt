-- ===== src/Memory/Tests.antt =====
-- Runs of the in-memory adapter, and the theorems at concrete data.
use endstone_blockdata_api.Base.{
  ◌≡◌, ◌≢◌, refl, arith, true, false, none, some, [], ◌∷◌, ◌==◌, if◌then◌else◌, string_eq, nat_eq,
}
use endstone_blockdata_api.Base.Int.{pos, pos_injective, int_eq}
use endstone_blockdata_api.Base.Dict
use endstone_blockdata_api.Nbt.{entries, of_entries}
use endstone_blockdata_api.Nbt.Canonical.{canonical}
use endstone_blockdata_api.Nbt.Sample.{weight}
use endstone_blockdata_api.Model.{
  location_eq, fail_if_changed, replace, force, refresh_revision, revision_of, snapshot_json,
}
use endstone_blockdata_api.Memory.Sample.{vault, cellar, fill_vault, run_apply}
use endstone_blockdata_api.Memory.{capture, stored, apply}
use endstone_blockdata_api.Memory.Laws.{
  patched, applied, capture-apply, apply_failed, apply_compare_and_swap, apply_lost_update,
}
use endstone_blockdata_api.Memory.Sound.{IsSound, capture_reachable, apply_each}

-- The revision of a block that nothing was written to.
empty_revision : (capture weight vault []).revision ≡ pos 68
unfolding capture stored refresh_revision revision_of snapshot_json canonical entries of_entries
    weight Dict.lookup
empty_revision = refl

filled_revision : (run_apply (fill_vault (some (pos 68))) []).0 ≡ applied weight (pos 199)
unfolding run_apply
filled_revision = refl

filled_succeeds : (apply weight (fill_vault (some (pos 68))) fail_if_changed []).0.succeeded ≡ true
unfolding run_apply
filled_succeeds = refl

filled_revision_changed :
    pos 68 ≢ (apply weight (fill_vault (some (pos 68))) fail_if_changed []).0.resulting_revision
unfolding run_apply
filled_revision_changed p = absurd (pos_ne p)
  where
    pos_ne : pos 68 ≡ pos 199 → ⊥
    pos_ne q = absurd (omega (arith, pos_injective 68 199 q))

refused : (apply weight (fill_vault none) replace []).0.succeeded ≡ false
unfolding apply
refused = refl

apply_compare_and_swap_example : apply weight (fill_vault (some (pos 5))) fail_if_changed [] ≡ (
    if pos 5 == (capture weight vault []).revision
    then (
      applied weight (patched weight (fill_vault (some (pos 5))) []).revision,
      Dict.insert vault (patched weight (fill_vault (some (pos 5))) []) [],
    )
    else (
      record {
        succeeded = false;
        status = "conflict";
        message = "revision changed";
        resulting_revision = (capture weight vault []).revision;
      },
      [],
    ))
apply_compare_and_swap_example =
    apply_compare_and_swap weight (fill_vault (some (pos 5))) [] (pos 5) refl

apply_lost_update_example :
    let after = (apply weight (fill_vault (some (pos 68))) fail_if_changed []).1 in
    ((apply weight (fill_vault (some (pos 68))) fail_if_changed after).0.status ≡ "conflict")
    × ((apply weight (fill_vault (some (pos 68))) fail_if_changed after).1 ≡ after)
apply_lost_update_example =
    apply_lost_update weight (fill_vault (some (pos 68))) (fill_vault (some (pos 68))) [] (pos 68)
      refl refl refl filled_succeeds filled_revision_changed

capture-apply_example :
    (capture weight cellar (apply weight (fill_vault (some (pos 68))) fail_if_changed []).1 ≡ (
      if cellar == vault
      then patched weight (fill_vault (some (pos 68))) []
      else capture weight cellar []))
    × ((apply weight (fill_vault (some (pos 68))) fail_if_changed []).0.resulting_revision
        ≡ (capture weight vault
            (apply weight (fill_vault (some (pos 68))) fail_if_changed []).1).revision)
capture-apply_example =
    capture-apply weight (fill_vault (some (pos 68))) fail_if_changed [] cellar filled_succeeds

apply_failed_example : (apply weight (fill_vault none) replace []).1 ≡ []
apply_failed_example = apply_failed weight (fill_vault none) replace [] refused

capture_reachable_example :
    IsSound weight vault
      (capture weight vault (apply_each weight ((fill_vault none, force) ∷ []) []))
capture_reachable_example = capture_reachable weight ((fill_vault none, force) ∷ []) vault
