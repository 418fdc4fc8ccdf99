-- ===== src/Inspector/Tests.antt =====
-- Concrete runs of the inspector, on a server whose world is the list of the patches it applied.
mod Cut
use endstone_blockdata_api.Base.{
  ◌≡◌, refl, String, true, false, none, some, List, [], ◌∷◌, ◌≤◌, inl, inr, ◌==◌, if◌then◌else◌, ok,
  arith, string_eq, nat_eq,
}
use endstone_blockdata_api.Base.Int.{pos, int_eq}
use endstone_blockdata_api.Base.Lists.{length, All}
use endstone_blockdata_api.Base.Dict
use endstone_blockdata_api.Nbt.{
  Value, bool, int, str, ItemNbt, compound, sequence, as_dict, as_list, entries, elements,
  of_entries, of_elements,
}
use endstone_blockdata_api.Nbt.Sample.{plain, digits, digits_from}
use endstone_blockdata_api.Nbt.Conversion.{to_int, to_bool, to_dict, get_or, get_key}
use endstone_blockdata_api.Model.{BlockLocation, location_eq}
use endstone_blockdata_api.Inspector.Python.{Python, get}
use endstone_blockdata_api.Inspector.Pages.{main_menu, item_remove_form}
use endstone_blockdata_api.Inspector.Session.{
  InspectorBridge, InspectorPatch, Server, Session, Sender, SentForm, checked,
}
use endstone_blockdata_api.Inspector.Command.{returns}
use endstone_blockdata_api.Inspector.Reading.{
  dicts_in, entity_entries, inventory_of_entity, container_inventory, container_capacity,
}
use endstone_blockdata_api.Inspector.Bridge.{
  require_bridge, reconnect, connect_if_none, check_bridge, missing_capabilities,
  check_capabilities, take_capture, capture_block, take_result, call_apply, apply_patch,
}
use endstone_blockdata_api.Inspector.Targets.{
  argument, key_of_sender, parse_non_negative_int, take_target, selected_target,
}
use endstone_blockdata_api.Inspector.Items.{
  remove, item_patch, empty_inspector_patch, expected_lengths, take_slot, read_change,
  take_inventory, check_capacity, report_result, write_item, read_request, run_item, handle_item,
}
use endstone_blockdata_api.Inspector.Summary.{storage_item_summary_lines}
use endstone_blockdata_api.Inspector.Summary.Bounds.{IsLine, storage_item_summary_lines-bounded}
use endstone_blockdata_api.Inspector.Dispatch.{
  dispatch, run_subcommand, on_submit, selection, response,
}
use endstone_blockdata_api.Inspector.Guard.{AfterOneWrite, dispatch-AfterOneWrite}
use endstone_blockdata_api.Inspector.Events.{Event, command, leave, handle_all}
use endstone_blockdata_api.Inspector.Tokens.{on_submit-once}
use endstone_blockdata_api.Inspector.Confirmation.{on_submit-unconfirmed}

abbrev pub python : Python
python = record {
  convert = plain;
  casefold = λ s. s;
  lower = λ s. s;
  strip = λ s. s;
  error_text = λ e. "error";
  dumps_compact = λ v. "{}";
  dumps = λ v. "{}";
  loads =
      λ s. if s == "[\"0\"]" then inr (sequence (str "0" ∷ [])) else inl "not the JSON of the test";
  is_finite = λ s. true;
  whole_number = λ s. none;
}

abbrev chest : BlockLocation
chest = record { dimension = "overworld"; x = pos 1; y = pos 64; z = pos 3 }

abbrev bundle : ItemNbt
bundle =
    ("Name", str "minecraft:bundle")
    ∷ ("Count", int (pos 1))
    ∷ (
      "tag",
      compound (
          (
            "storage_item_component_content",
            sequence (compound (("Name", str "minecraft:apple") ∷ []) ∷ []),
          )
          ∷ []),
    )
    ∷ []

abbrev chest_mapping : ItemNbt
chest_mapping =
    (
      "location",
      compound (
          ("dimension", str "overworld")
          ∷ ("x", int (pos 1))
          ∷ ("y", int (pos 64))
          ∷ ("z", int (pos 3))
          ∷ []),
    )
    ∷ ("type", str "minecraft:chest")
    ∷ ("revision", int (pos 9))
    ∷ (
      "block_entity",
      compound (
          ("is_container", bool true)
          ∷ ("container_size", int (pos 27))
          ∷ (
            "inventory",
            sequence (compound (("slot", int (pos 0)) ∷ ("item", compound bundle) ∷ []) ∷ []),
          )
          ∷ []),
    )
    ∷ []

abbrev bridge : InspectorBridge (List InspectorPatch)
bridge = record {
  has_method = λ name. true;
  available = λ world. ok (bool true);
  capabilities = λ world. ok (("inventory", bool true) ∷ []);
  capture = λ loc world. ok (some chest_mapping);
  capture_region = λ low high world. ok (chest_mapping ∷ []);
  apply = λ patch policy world. (ok (("ok", bool true) ∷ []), patch ∷ world);
}

abbrev server : Server (List InspectorPatch)
server = record { python = python; version = "0.6.9"; import_live_bridge = λ world. ok bridge }

abbrev steve : Sender
steve = record {
  unique_id = some "1";
  xuid = none;
  name = some "Steve";
  object_id = "";
  location = none;
  has_send_form = true;
  permission = checked true;
  is_dead = ok false;
  form_error = none;
}

-- Steve has selected the chest, and one form of his is open.
abbrev session : Session (List InspectorPatch)
session = record {
  world = [];
  plugin = record {
    selected_targets = ("unique_id:1", chest) ∷ [];
    audit_baselines = [];
    audit_logs = [];
    active_forms = ("unique_id:1", 0) ∷ [];
    live_bridge = some bridge;
    native_capabilities = ("inventory", bool true) ∷ [];
    bridge_error = "";
  };
  messages = [];
  sent = [];
  drawn = 1;
}

abbrev menu : SentForm
menu = record { key = "unique_id:1"; token = 0; page = main_menu }

abbrev remove_item : List String
remove_item = "item" ∷ "remove" ∷ "0" ∷ []

-- An inventory with a bundle that holds the given entries.
abbrev filled : List Value → Value
filled contents = compound (
    ("Name", str "minecraft:bundle")
    ∷ ("tag", compound (("storage_item_component_content", sequence contents) ∷ []))
    ∷ [])

abbrev with_bundle : List Value → List ItemNbt
with_bundle contents = (("slot", int (pos 0)) ∷ ("item", filled contents) ∷ []) ∷ []

abbrev apple : Value
apple = compound (("Name", str "minecraft:apple") ∷ [])

abbrev eight_apples : List Value
eight_apples = apple ∷ apple ∷ apple ∷ apple ∷ apple ∷ apple ∷ apple ∷ apple ∷ []

-- The lines of the first four entries are 32 with the heading, so that the last apple is left out.
abbrev pub overfull : List ItemNbt
overfull =
    with_bundle
      (filled eight_apples ∷ filled eight_apples ∷ filled eight_apples ∷ apple ∷ apple ∷ [])

storage_item_summary_lines-bounded_example :
    (length (storage_item_summary_lines python overfull) ≤ 32)
    × All (IsLine python) (storage_item_summary_lines python overfull)
storage_item_summary_lines-bounded_example = storage_item_summary_lines-bounded python overfull

dispatch-AfterOneWrite_example :
    AfterOneWrite server bridge [] (dispatch server steve remove_item session).1.world
dispatch-AfterOneWrite_example = dispatch-AfterOneWrite server bridge steve remove_item session refl

abbrev between : List (Event (List InspectorPatch))
between = command steve ("menu" ∷ []) ∷ leave steve ∷ []

on_submit-once_example :
    on_submit server steve menu
      (selection (int (pos 6)))
      (handle_all server between (on_submit server steve menu (selection (int (pos 0))) session).1)
    ≡ (
      returns,
      handle_all server between (on_submit server steve menu (selection (int (pos 0))) session).1,
    )
on_submit-once_example =
    on_submit-once server steve menu (selection (int (pos 0))) (selection (int (pos 6))) between
      session (ground arith)

abbrev remove_form : SentForm
remove_form = record { key = "unique_id:1"; token = 0; page = item_remove_form false }

-- The response asks to clear the slot 0, which leads to the page that asks for a confirmation.
on_submit-unconfirmed_example :
    (on_submit server steve remove_form (response "[\"0\"]") session).1.world ≡ session.world
on_submit-unconfirmed_example =
    on_submit-unconfirmed server (refl, (refl, refl)) steve remove_form tt (response "[\"0\"]")
      session

-- The write that the command comes to: the patch clears the slot, with the captured revision.
remove_run :
    (dispatch server steve remove_item session).1.world
    ≡ item_patch remove (pos 0) (
        empty_inspector_patch
          (("dimension", str "overworld")
            ∷ ("x", int (pos 1))
            ∷ ("y", int (pos 64))
            ∷ ("z", int (pos 3))
            ∷ [])
          chest_mapping)
      ∷ []
unfolding dispatch run_subcommand string_eq handle_item run_item expected_lengths nat_eq argument
    read_request selected_target take_target Dict.lookup key_of_sender take_slot
    parse_non_negative_int plain digits digits_from read_change require_bridge reconnect
    connect_if_none check_bridge missing_capabilities check_capabilities to_bool get_or
    capture_block take_capture write_item take_inventory container_inventory as_dict entries
    of_entries get inventory_of_entity entity_entries as_list elements of_elements dicts_in
    check_capacity container_capacity to_int get_key to_dict apply_patch call_apply take_result
    report_result
remove_run = refl
