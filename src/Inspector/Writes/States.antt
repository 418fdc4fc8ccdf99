-- ===== src/Inspector/Writes/States.antt =====
-- What `/bd state` writes.
use endstone_blockdata_api.Base.{
  ◌≡◌, refl, ok, String, List, [], ◌∷◌, contains, ◌==◌, string_eq, nat_eq,
}
use endstone_blockdata_api.Base.Lists.{length, drop}
use endstone_blockdata_api.Nbt.{Value, ItemNbt}
use endstone_blockdata_api.Nbt.Conversion.{to_dict, get_key}
use endstone_blockdata_api.Model.{BlockLocation}
use endstone_blockdata_api.Inspector.Session.{InspectorPatch, Server, Session, Sender}
use endstone_blockdata_api.Inspector.Python.{Python}
use endstone_blockdata_api.Inspector.Triples.{
  Triple, then-Triple, if-Triple, weaken-Triple, refuse-Keeps,
}
use endstone_blockdata_api.Inspector.Reads.{
  IsCapture, KeptWith, require_bridge-Keeps, capture_block-Triple,
}
use endstone_blockdata_api.Inspector.Reads.Targets.{resolve_target-Keeps}
use endstone_blockdata_api.Inspector.Targets.{argument}
use endstone_blockdata_api.Inspector.Items.{empty_inspector_patch}
use endstone_blockdata_api.Inspector.States.{state_patch, write_state, run_state, handle_state}
use endstone_blockdata_api.Inspector.Writes.{
  IsPatchOn, LeavesInventory, LeavesNbt, Writer, apply_patch-Triple, report_result-Keeps,
  uncaught-Triple, reads, ends_after,
}

-- The patch of a state command on a capture: at the location that the capture shows and with its
-- revision, for one property.
pub record IsStatePatch (python : Python) (snapshot : ItemNbt) (patch : InspectorPatch)
    : Type 0 where
  pub on_capture : IsPatchOn python snapshot patch
  pub name : String
  pub value : Value
  pub updates : patch.state_updates ≡ (name, value) ∷ []
  pub removals : patch.state_removals ≡ []
  pub inventory : LeavesInventory patch
  pub nbt : LeavesNbt patch

state_patch-IsStatePatch :
    (python : Python) (name : String) (value : Value) (snapshot location : ItemNbt)
    (location_value : Value)
    → get_key "location" snapshot ≡ ok location_value
    → to_dict python.convert location_value ≡ ok location
    → IsStatePatch python snapshot
        (state_patch name value (empty_inspector_patch location snapshot))
unfolding state_patch empty_inspector_patch
state_patch-IsStatePatch python name value snapshot location location_value shown located = record {
  on_capture = record {
    location_value = location_value;
    shown = shown;
    located = located;
    expects = refl;
  };
  name = name;
  value = value;
  updates = refl;
  removals = refl;
  inventory = (refl, refl);
  nbt = (refl, refl);
}

module _ {World : Type 0} (server : Server World) {Kept Ends : Session World → Type 0}
    {Allowed : BlockLocation → ItemNbt → InspectorPatch → Type 0}
    (writer : Writer Kept Ends Allowed)
    (allowed : (loc : BlockLocation) (snapshot : ItemNbt) (patch : InspectorPatch)
      → IsStatePatch server.python snapshot patch
      → Allowed loc snapshot patch) where
  write_state-Triple :
      (target : BlockLocation) (name : String) (value : Value) (snapshot : ItemNbt)
      → Triple
          (KeptWith Kept (IsCapture target snapshot))
          Ends
          (λ _. Ends)
          (write_state server target name value snapshot)
  unfolding write_state
  write_state-Triple target name value snapshot =
      then-Triple
        (uncaught-Triple _ (λ session kept. writer.stays session kept.0)
          (get_key "location" snapshot))
        (λ location_value.
          then-Triple
            (uncaught-Triple _ (λ session kept. writer.stays session kept.0.0)
              (to_dict server.python.convert location_value))
            (λ location. record {
              runs = λ session ((kept, shown), located).
                  (then-Triple
                      (apply_patch-Triple server writer target snapshot _ (
                        allowed target snapshot _ (
                          state_patch-IsStatePatch server.python name value snapshot location
                            location_value shown located)))
                      (λ result. report_result-Keeps server writer.neutral_end _ result)).runs
                    session kept;
            }))

  run_state-Triple :
      (sender : Sender) (args : List String)
      → Triple Kept Ends (λ _. Ends) (run_state server sender args)
  unfolding run_state
  run_state-Triple sender args =
      then-Triple
        (reads writer (resolve_target-Keeps server.python writer.neutral sender (drop 3 args) _))
        (λ target.
          then-Triple
            (reads writer
              (require_bridge-Keeps server writer.neutral ("block_writes" ∷ []) "apply"))
            (λ bridge.
              then-Triple
                (weaken-Triple writer.stays (λ value after held. held)
                  (capture_block-Triple server writer.neutral target))
                (λ snapshot. write_state-Triple target _ _ snapshot)))

  pub handle_state-Triple :
      (sender : Sender) (args : List String)
      → Triple Kept Ends (λ _. Ends) (handle_state server sender args)
  unfolding handle_state
  handle_state-Triple sender args =
      if-Triple (contains (3 ∷ 6 ∷ []) (length args))
        (if-Triple (server.python.lower (argument 0 args) == "set") (run_state-Triple sender args)
          (ends_after writer (refuse-Keeps writer.neutral _)))
        (ends_after writer (refuse-Keeps writer.neutral _))
