-- ===== src/Inspector/Session.antt =====
-- The inspector's state, its players and the native bridge that it calls.
use endstone_blockdata_api.Base.{
  ℕ, String, Bool, Option, none, some, List, ◌==◌, if◌then◌else◌, Result, Error, Eq, string_eq,
}
use endstone_blockdata_api.Base.Int.{ℤ}
use endstone_blockdata_api.Base.Dict.{Dict}
use endstone_blockdata_api.Nbt.{Value, ItemNbt}
use endstone_blockdata_api.Model.{BlockLocation, BlockLocation-discrete}
use endstone_blockdata_api.Inspector.Python.{Python}
use endstone_blockdata_api.Inspector.Pages.{Page}

-- `(sender_key, dimension, x, y, z)`
pub record AuditKey : Type 0 where
  pub sender_key : String
  pub target : BlockLocation

unfoldable AuditKey-discrete : Discrete AuditKey
unfolding string_eq BlockLocation-discrete
AuditKey-discrete = hlevel (string_eq.dec, BlockLocation-discrete)

instance unfoldable pub audit_key_eq : Eq AuditKey
unfolding AuditKey-discrete
audit_key_eq = record { dec = AuditKey-discrete }

-- The patch that the inspector sends: the mapping of `_empty_patch`, with a mapping of numbers.
pub record InspectorPatch : Type 0 where
  pub location : ItemNbt
  pub expected_revision : Value
  pub state_updates : ItemNbt
  pub state_removals : List String
  pub nbt_updates : ItemNbt
  pub nbt_removals : List String
  pub inventory_updates : Dict ℤ ItemNbt
  pub inventory_removals : List ℤ

-- The module of the native bridge. Its calls are functions of the world that the server holds.
pub record InspectorBridge {ℓ} (World : Type ℓ) : Type ℓ where
  pub has_method : String → Bool
  pub available : World → Result Value
  pub capabilities : World → Result ItemNbt
  pub capture : BlockLocation → World → Result (Option ItemNbt)
  pub capture_region : BlockLocation → BlockLocation → World → Result (List ItemNbt)
  pub apply : InspectorPatch → String → World → Result ItemNbt × World

-- The server, as far as the plugin asks it: the import of the bridge's module.
pub record Server {ℓ} (World : Type ℓ) : Type ℓ where
  pub python : Python
  pub version : String
  pub import_live_bridge : World → Result (InspectorBridge World)

-- What a change between two snapshots is in the audit log.
pub record InspectorChange : Type 0 where
  pub slot : ℤ
  pub kind : String
  pub before : Value
  pub after : Value

pub record InspectorDelta : Type 0 where
  pub location : ItemNbt
  pub block_changed : Bool
  pub actor_nbt_changed : Bool
  pub inventory_changes : List InspectorChange

-- The attributes that `on_enable` sets. A form's token is a number that was drawn for it.
pub record Plugin {ℓ} (World : Type ℓ) : Type ℓ where
  pub selected_targets : Dict String BlockLocation
  pub audit_baselines : Dict AuditKey ItemNbt
  pub audit_logs : List InspectorDelta
  pub active_forms : Dict String ℕ
  pub live_bridge : Option (InspectorBridge World)
  pub native_capabilities : ItemNbt
  pub bridge_error : String

-- The location of a player: the name of its dimension, and its coordinates rounded down.
pub record SenderLocation : Type 0 where
  pub dimension_name : Option String
  pub x : ℤ
  pub y : ℤ
  pub z : ℤ

-- What `sender.has_permission("bd.admin")` gives; the sender may have no such method.
pub data Permission : Type 0 where
  no_checker : Permission
  checked : (allowed : Bool) → Permission
  check_failed : (error : Error) → Permission

-- What the plugin asks of the sender of a command; `form_error` is what `send_form` raises.
pub record Sender : Type 0 where
  pub unique_id : Option String
  pub xuid : Option String
  pub name : Option String
  pub object_id : String
  pub location : Option SenderLocation
  pub has_send_form : Bool
  pub permission : Permission
  pub is_dead : Result Bool
  pub form_error : Option Error

-- A form that was sent, with the key of its player and its token.
pub record SentForm : Type 0 where
  pub key : String
  pub token : ℕ
  pub page : Page

-- What a command reads and changes: the world, the plugin, the messages and the forms that it
-- sent, and the number of tokens that `uuid4` drew; the next token is that number, so that no
-- token is drawn twice.
pub record Session {ℓ} (World : Type ℓ) : Type ℓ where
  pub world : World
  pub plugin : Plugin World
  pub messages : List String
  pub sent : List SentForm
  pub drawn : ℕ

unfoldable pub dimension_name : Sender → String
dimension_name sender = elim sender.location [
  | none ↦ "overworld"
  | some location ↦ elim location.dimension_name [
    | none ↦ "overworld"
    | some name ↦ if name == "" then "overworld" else name
  ]
]
