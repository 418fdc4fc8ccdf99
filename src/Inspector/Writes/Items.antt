-- ===== src/Inspector/Writes/Items.antt =====
-- What `/bd item` writes.
use endstone_blockdata_api.Base.{
  ◌≡◌, refl, ok, String, Bool, true, false, Option, none, some, List, [], ◌∷◌, if◌then◌else◌, inl,
  inr, Bool-cases, Result-cases, arith, ◌⊎◌, contains, ◌==◌, string_eq, nat_eq,
}
use endstone_blockdata_api.Base.Int.{ℤ, pos, leb_ℤ, ltb_ℤ, ◌≤ℤ◌, ◌<ℤ◌}
use endstone_blockdata_api.Base.Lists.{length, drop}
use endstone_blockdata_api.Nbt.{Value, ItemNbt}
use endstone_blockdata_api.Nbt.Conversion.{to_dict, get_key}
use endstone_blockdata_api.Model.{BlockLocation}
use endstone_blockdata_api.Inspector.Python.{Python}
use endstone_blockdata_api.Inspector.Reading.{container_inventory, container_capacity}
use endstone_blockdata_api.Inspector.Session.{InspectorPatch, Server, Session, Sender}
use endstone_blockdata_api.Inspector.Triples.{
  Triple, Keeps, then-Triple, if-Triple, weaken-Triple, give-Keeps, refuse-Keeps,
}
use endstone_blockdata_api.Inspector.Reads.{
  IsCapture, KeptWith, require_bridge-Keeps, capture_block-Triple,
}
use endstone_blockdata_api.Inspector.Reads.Targets.{
  parse_explicit_target-Keeps, selected_target-Keeps,
}
use endstone_blockdata_api.Inspector.Targets.{argument, parse_non_negative_int}
use endstone_blockdata_api.Inspector.Items.{
  ItemChange, add, remove, item_patch, empty_inspector_patch, take_slot, take_count, read_count,
  take_object, take_nbt, read_nbt, take_inventory, check_capacity, write_item, read_change,
  read_request, run_item, handle_item, expected_lengths,
}
use endstone_blockdata_api.Inspector.Writes.{
  IsPatchOn, LeavesStates, LeavesNbt, Writer, apply_patch-Triple, report_result-Keeps,
  uncaught-Triple, reads, ends_after,
}

-- What an item patch does: it clears one slot, or puts one item in it, and leaves all else.
abbrev pub ChangesSlot : ℤ → InspectorPatch → Type 0
ChangesSlot slot patch =
    ((patch.inventory_updates ≡ []) × (patch.inventory_removals ≡ slot ∷ []))
    ⊎ ((item : ItemNbt) × (patch.inventory_updates ≡ (slot, item) ∷ [])
        × (patch.inventory_removals ≡ []))

-- The patch of an item command on a capture: at the location that the capture shows and with its
-- revision, for one slot, which is within the capacity of the container that the capture shows.
pub record IsItemPatch (python : Python) (snapshot : ItemNbt) (patch : InspectorPatch)
    : Type 0 where
  pub on_capture : IsPatchOn python snapshot patch
  pub slot : ℤ
  pub inventory : List ItemNbt
  pub found : container_inventory python snapshot ≡ some inventory
  pub least : pos 0 ≤ℤ slot
  pub inside : slot <ℤ container_capacity python snapshot inventory
  pub changes : ChangesSlot slot patch
  pub states : LeavesStates patch
  pub nbt : LeavesNbt patch

module _ (python : Python) (slot : ℤ) (snapshot location : ItemNbt) (location_value : Value)
    (shown : get_key "location" snapshot ≡ ok location_value)
    (located : to_dict python.convert location_value ≡ ok location) (inventory : List ItemNbt)
    (found : container_inventory python snapshot ≡ some inventory) (least : pos 0 ≤ℤ slot)
    (inside : slot <ℤ container_capacity python snapshot inventory) where
  item_patch-IsItemPatch :
      (change : ItemChange)
      → IsItemPatch python snapshot
          (item_patch change slot (empty_inspector_patch location snapshot))
  unfolding item_patch empty_inspector_patch
  item_patch-IsItemPatch remove = record {
    on_capture = record {
      location_value = location_value;
      shown = shown;
      located = located;
      expects = refl;
    };
    slot = slot;
    inventory = inventory;
    found = found;
    least = least;
    inside = inside;
    changes = inl (refl, refl);
    states = (refl, refl);
    nbt = (refl, refl);
  }
  item_patch-IsItemPatch (add item_id count nbt) = record {
    on_capture = record {
      location_value = location_value;
      shown = shown;
      located = located;
      expects = refl;
    };
    slot = slot;
    inventory = inventory;
    found = found;
    least = least;
    inside = inside;
    changes = inr (_, refl, refl);
    states = (refl, refl);
    nbt = (refl, refl);
  }

module _ {World : Type 0} (server : Server World) {Kept Ends : Session World → Type 0}
    {Allowed : BlockLocation → ItemNbt → InspectorPatch → Type 0}
    (writer : Writer Kept Ends Allowed)
    (allowed : (loc : BlockLocation) (snapshot : ItemNbt) (patch : InspectorPatch)
      → IsItemPatch server.python snapshot patch
      → Allowed loc snapshot patch) where
  module _ (target : BlockLocation) (snapshot : ItemNbt) where
    -- The session still shows the capture.
    abbrev Shows : Session World → Type 0
    Shows = KeptWith Kept (IsCapture target snapshot)

    take_inventory-Triple :
        (found : Option (List ItemNbt))
        → Triple Shows Ends
            (λ inventory. KeptWith Shows (λ _. found ≡ some inventory))
            (take_inventory server target snapshot found)
    unfolding take_inventory
    take_inventory-Triple none = record {
      runs = λ session kept. writer.neutral_end.messages session _ (writer.stays session kept.0);
    }
    take_inventory-Triple (some inventory) = record { runs = λ session kept. (kept, refl) }

    check_capacity-Triple :
        (Starts : Session World → Type 0)
        (ends : (session : Session World) → Starts session → Ends session) (slot capacity : ℤ)
        → Triple Starts Ends
            (λ _. KeptWith Starts (λ _. slot <ℤ capacity))
            (check_capacity server slot capacity)
    unfolding check_capacity
    check_capacity-Triple Starts ends slot capacity = elim (Bool-cases (leb_ℤ capacity slot)) [
      | inl outside ↦ rw outside (record {
        runs = λ session starts. writer.neutral_end.messages session _ (ends session starts);
      })
      | inr inside ↦ rw inside (record { runs = λ session starts. (starts, ground arith) })
    ]

    write_item-Triple :
        (slot : ℤ) (change : ItemChange)
        → pos 0 ≤ℤ slot
        → Triple Shows Ends (λ _. Ends) (write_item server target slot change snapshot)
    unfolding write_item
    write_item-Triple slot change least =
        then-Triple (take_inventory-Triple (container_inventory server.python snapshot))
          (λ inventory.
            then-Triple
              (check_capacity-Triple _ (λ session kept. writer.stays session kept.0.0) slot _)
              (λ _.
                then-Triple
                  (uncaught-Triple _ (λ session kept. writer.stays session kept.0.0.0)
                    (get_key "location" snapshot))
                  (λ location_value.
                    then-Triple
                      (uncaught-Triple _ (λ session kept. writer.stays session kept.0.0.0.0)
                        (to_dict server.python.convert location_value))
                      (λ location. record {
                        runs = λ session ((((shows, found), inside), shown), located).
                            (then-Triple
                                (apply_patch-Triple server writer target snapshot _ (
                                  allowed target snapshot _ (
                                    item_patch-IsItemPatch server.python slot snapshot location
                                      location_value shown located _ found least inside change)))
                                (λ result.
                                  report_result-Keeps server writer.neutral_end _ result)).runs
                              session shows;
                      }))))

  take_slot-Triple :
      (slot : Option ℤ)
      → ((n : ℤ) → slot ≡ some n → pos 0 ≤ℤ n)
      → Triple Kept Ends (λ n. KeptWith Kept (λ _. pos 0 ≤ℤ n)) (take_slot server slot)
  unfolding take_slot
  take_slot-Triple none least = record {
    runs = λ session kept. writer.neutral_end.messages session _ (writer.stays session kept);
  }
  take_slot-Triple (some slot) least = record { runs = λ session kept. (kept, least slot refl) }

  parsed-least :
      (text : String) (n : ℤ) → parse_non_negative_int server.python text ≡ some n → pos 0 ≤ℤ n
  unfolding parse_non_negative_int
  parsed-least text n h = elim (Result-cases (server.python.convert.int_of_text text)) [
    | inl (m, parsed) ↦ ground (arith, parsed, h)
    | inr (e, failed) ↦ ground (arith, failed, h)
  ]

  take_count-Keeps : (count : Option ℤ) → Keeps Kept (take_count server count)
  unfolding take_count
  take_count-Keeps none = refuse-Keeps writer.neutral _
  take_count-Keeps (some count) =
      if-Triple (ltb_ℤ count (pos 1)) (refuse-Keeps writer.neutral _) (give-Keeps count)

  read_count-Keeps : (options : List String) → Keeps Kept (read_count server options)
  unfolding read_count
  read_count-Keeps [] = give-Keeps (pos 1)
  read_count-Keeps (count ∷ options) = take_count-Keeps _

  take_object-Keeps : (object : Option ItemNbt) → Keeps Kept (take_object server object)
  unfolding take_object
  take_object-Keeps none = refuse-Keeps writer.neutral _
  take_object-Keeps (some nbt) = give-Keeps nbt

  take_nbt-Keeps : (decoded : String ⊎ Value) → Keeps Kept (take_nbt server decoded)
  unfolding take_nbt
  take_nbt-Keeps (inl message) = refuse-Keeps writer.neutral _
  take_nbt-Keeps (inr value) = take_object-Keeps _

  read_nbt-Keeps : (options : List String) → Keeps Kept (read_nbt server options)
  unfolding read_nbt
  read_nbt-Keeps [] = give-Keeps []
  read_nbt-Keeps (count ∷ []) = give-Keeps []
  read_nbt-Keeps (count ∷ nbt ∷ []) = take_nbt-Keeps _
  read_nbt-Keeps (count ∷ nbt ∷ more ∷ options) = give-Keeps []

  read_change-Keeps :
      (removes : Bool) (args : List String) → Keeps Kept (read_change server removes args)
  unfolding read_change
  read_change-Keeps true args = give-Keeps _
  read_change-Keeps false args =
      then-Triple (read_count-Keeps (drop 1 args))
        (λ count. then-Triple (read_nbt-Keeps (drop 1 args)) (λ nbt. give-Keeps _))

  read_request-Triple :
      (sender : Sender) (removes explicit : Bool) (args : List String)
      → Triple Kept Ends
          (λ request. KeptWith Kept (λ _. pos 0 ≤ℤ request.1))
          (read_request server sender removes explicit args)
  unfolding read_request
  read_request-Triple sender removes explicit args =
      then-Triple
        (reads writer (
          if-Triple explicit (parse_explicit_target-Keeps server.python writer.neutral sender _ _)
            (selected_target-Keeps server.python writer.neutral sender)))
        (λ target.
          then-Triple
            (take_slot-Triple _ (parsed-least (argument (if explicit then 5 else 1) args)))
            (λ slot. record {
              runs = λ session (kept, least).
                  (then-Triple
                      (reads writer
                        (read_change-Keeps removes (drop (if explicit then 6 else 2) args)))
                      (λ change. record { runs = λ after held. (held, least) })).runs
                    session kept;
            }))

  run_item-Triple :
      (sender : Sender) (removes explicit : Bool) (args : List String)
      → Triple Kept Ends (λ _. Ends) (run_item server sender removes explicit args)
  unfolding run_item
  run_item-Triple sender removes explicit args =
      if-Triple (contains (expected_lengths removes explicit) (length args))
        (then-Triple (read_request-Triple sender removes explicit args) (λ request. record {
          runs = λ session (kept, least).
              (then-Triple
                  (reads writer
                    (require_bridge-Keeps server writer.neutral ("inventory" ∷ []) "apply"))
                  (λ bridge.
                    then-Triple
                      (weaken-Triple writer.stays (λ value after held. held)
                        (capture_block-Triple server writer.neutral request.0))
                      (λ snapshot.
                        write_item-Triple request.0 snapshot request.1 request.2 least))).runs
                session kept;
        }))
        (ends_after writer (refuse-Keeps writer.neutral _))

  pub handle_item-Triple :
      (sender : Sender) (args : List String)
      → Triple Kept Ends (λ _. Ends) (handle_item server sender args)
  unfolding handle_item
  handle_item-Triple sender [] = ends_after writer (refuse-Keeps writer.neutral _)
  handle_item-Triple sender (action ∷ args) =
      if-Triple (server.python.lower action == "remove") (run_item-Triple sender true _ _) (
        if-Triple (server.python.lower action == "add") (run_item-Triple sender false _ _)
          (ends_after writer (refuse-Keeps writer.neutral _)))
