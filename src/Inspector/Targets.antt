-- ===== src/Inspector/Targets.antt =====
-- The block that a command is about: given by its position, or selected before.
use Prim.Native.String.{◌++◌}
use endstone_blockdata_api.Base.{
  ℕ, zero, suc, String, Option, none, some, List, [], ◌∷◌, ◌==◌, if◌then◌else◌, ok, err, string_eq,
}
use endstone_blockdata_api.Base.Int.{ℤ, pos, leb_ℤ}
use endstone_blockdata_api.Base.Dict
use endstone_blockdata_api.Nbt.{Value, ItemNbt}
use endstone_blockdata_api.Nbt.Conversion.{to_int, to_str, to_bool, to_dict, get_key}
use endstone_blockdata_api.Model.{BlockLocation}
use endstone_blockdata_api.Inspector.Python.{Python, get}
use endstone_blockdata_api.Inspector.Session.{Sender, SenderLocation, dimension_name}
use endstone_blockdata_api.Inspector.Command.{Command, ◌>>=◌, give, refuse, uncaught}

-- `args[index]`; the handlers have checked the number of arguments.
unfoldable pub argument : ℕ → List String → String
argument index [] = ""
argument zero (arg ∷ args) = arg
argument (suc index) (arg ∷ args) = argument index args

module _ (python : Python) where
  unfoldable pub named_key : Sender → String
  named_key sender = elim sender.name [
    | none ↦ "object:" ++ sender.object_id
    | some name ↦
        if name == "" then "object:" ++ sender.object_id else "name:" ++ python.casefold name
  ]

  unfoldable pub key_of_sender : Sender → String
  key_of_sender sender = elim sender.unique_id [
    | some id ↦ "unique_id:" ++ id
    | none ↦ elim sender.xuid [ some id ↦ "xuid:" ++ id | none ↦ named_key sender ]
  ]

  -- The three integers of an explicit position.
  unfoldable pub parse_coordinates : Sender → List String → Option BlockLocation
  parse_coordinates sender args = elim (python.convert.int_of_text (argument 0 args)) [
    | err _ ↦ none
    | ok x ↦ elim (python.convert.int_of_text (argument 1 args)) [
      | err _ ↦ none
      | ok y ↦ elim (python.convert.int_of_text (argument 2 args)) [
        | err _ ↦ none
        | ok z ↦ some record { dimension = dimension_name sender; x = x; y = y; z = z }
      ]
    ]
  ]

  unfoldable pub parse_non_negative_int : String → Option ℤ
  parse_non_negative_int text = elim (python.convert.int_of_text text) [
    | err _ ↦ none
    | ok parsed ↦ if leb_ℤ (pos 0) parsed then some parsed else none
  ]

  unfoldable pub snapshot_dimension : Sender → Value → String
  snapshot_dimension sender dimension =
      if to_bool python.convert dimension
      then to_str python.convert dimension
      else dimension_name sender

module _ {ℓ} {World : Type ℓ} (python : Python) where
  unfoldable pub take_target : String → Option BlockLocation → Command World BlockLocation
  take_target message none = refuse message
  take_target message (some target) = give target

  unfoldable pub parse_explicit_target : Sender → List String → String → Command World BlockLocation
  parse_explicit_target sender (x ∷ y ∷ z ∷ []) usage =
      take_target "§cCoordinates must be three absolute integers: <x> <y> <z>."
        (parse_coordinates python sender (x ∷ y ∷ z ∷ []))
  parse_explicit_target sender args usage = refuse ("§cUsage: " ++ usage)

  unfoldable pub selected_target : Sender → Command World BlockLocation
  selected_target sender session =
      take_target
        "§cNo active container target. Run /bd locate or /bd inspect <x> <y> <z> first, or use an explicit-position form."
        (Dict.lookup (key_of_sender python sender) session.plugin.selected_targets) session

  unfoldable pub resolve_target : Sender → List String → String → Command World BlockLocation
  resolve_target sender [] usage = selected_target sender
  resolve_target sender (arg ∷ args) usage = parse_explicit_target sender (arg ∷ args) usage

  unfoldable pub select_target : Sender → BlockLocation → Command World BlockLocation
  select_target sender target session = give target (record session {
    plugin = record session.plugin {
      selected_targets =
          Dict.insert (key_of_sender python sender) target session.plugin.selected_targets;
    };
  })

  -- `_remember_target`
  unfoldable pub remember_target : Sender → ItemNbt → Command World BlockLocation
  remember_target sender snapshot = do
    location_value ← uncaught (get_key "location" snapshot)
    location ← uncaught (to_dict python.convert location_value)
    vx ← uncaught (get_key "x" location)
    x ← uncaught (to_int python.convert vx)
    vy ← uncaught (get_key "y" location)
    y ← uncaught (to_int python.convert vy)
    vz ← uncaught (get_key "z" location)
    z ← uncaught (to_int python.convert vz)
    select_target sender (record {
      dimension = snapshot_dimension python sender (get "dimension" location);
      x = x;
      y = y;
      z = z;
    })

  unfoldable pub position_of : Sender → Option SenderLocation → Command World BlockLocation
  position_of sender none = refuse "§cThis command needs a player location."
  position_of sender (some location) =
      give
        record { dimension = dimension_name sender; x = location.x; y = location.y; z = location.z }

  unfoldable pub sender_position : Sender → Command World BlockLocation
  sender_position sender = position_of sender sender.location
