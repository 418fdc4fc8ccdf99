-- ===== src/Inspector/Writes.antt =====
-- The commands that write: what their one write is built from, and what they keep else.
pub mod Items
pub mod States
use endstone_blockdata_api.Base.{
  ◌≡◌, refl, ap, sym, ◌∙◌, String, Option, some, List, [], Result, ok, err,
}
use endstone_blockdata_api.Nbt.{Value, ItemNbt}
use endstone_blockdata_api.Model.{BlockLocation}
use endstone_blockdata_api.Inspector.Session.{
  InspectorBridge, InspectorPatch, Plugin, Server, Session,
}
use endstone_blockdata_api.Inspector.Command.{Command, uncaught}
use endstone_blockdata_api.Inspector.Triples.{
  Held, Triple, Keeps, then-Triple, weaken-Triple, Neutral, send_message-Keeps, if-Triple,
}
use endstone_blockdata_api.Inspector.Reads.{
  HasBridge, IsCapture, KeptWith, IsCapture-Neutral, require_bridge-Triple,
}
use endstone_blockdata_api.Inspector.Bridge.{
  take_result, call_apply, apply_patch, is_conflict, send_apply_failure,
}
use endstone_blockdata_api.Inspector.Python.{Python, get}
use endstone_blockdata_api.Nbt.Conversion.{to_bool, to_dict, get_key}
use endstone_blockdata_api.Inspector.Items.{report_result}

-- The session after a write of the bridge.
abbrev pub written :
    {World : Type 0} → InspectorBridge World → InspectorPatch → Session World → Session World
written bridge patch session = record session {
  world = (bridge.apply patch "fail_if_changed" session.world).1;
}

-- A patch with the location that a capture shows and with its revision.
pub record IsPatchOn (python : Python) (snapshot : ItemNbt) (patch : InspectorPatch) : Type 0 where
  pub location_value : Value
  pub shown : get_key "location" snapshot ≡ ok location_value
  pub located : to_dict python.convert location_value ≡ ok patch.location
  pub expects : patch.expected_revision ≡ get "revision" snapshot

-- A patch that leaves the NBT of the block as it is; and one that leaves its states, and one that
-- leaves its inventory.
abbrev pub LeavesNbt : InspectorPatch → Type 0
LeavesNbt patch = (patch.nbt_updates ≡ []) × (patch.nbt_removals ≡ [])

abbrev pub LeavesStates : InspectorPatch → Type 0
LeavesStates patch = (patch.state_updates ≡ []) × (patch.state_removals ≡ [])

abbrev pub LeavesInventory : InspectorPatch → Type 0
LeavesInventory patch = (patch.inventory_updates ≡ []) × (patch.inventory_removals ≡ [])

-- What a command that writes may do: `Kept` holds up to its write, and `Ends` after it, which
-- messages do not change. A write of a patch that is `Allowed` on a capture leads to `Ends`.
pub record Writer {World : Type 0} (Kept Ends : Session World → Type 0)
    (Allowed : BlockLocation → ItemNbt → InspectorPatch → Type 0) : Type 0 where
  pub neutral : Neutral Kept
  pub neutral_end : Neutral Ends
  pub stays : (session : Session World) → Kept session → Ends session
  pub writes :
      (session : Session World) (bridge : InspectorBridge World) (loc : BlockLocation)
      (snapshot : ItemNbt) (patch : InspectorPatch)
      → Kept session
      → HasBridge bridge session
      → bridge.capture loc session.world ≡ ok (some snapshot)
      → Allowed loc snapshot patch
      → Ends (written bridge patch session)

some_injective {ℓ} : {A : Type ℓ} (a b : A) → some a ≡ some b → a ≡ b
some_injective a b h = cc

module _ {World : Type 0} (server : Server World) {Kept Ends : Session World → Type 0}
    {Allowed : BlockLocation → ItemNbt → InspectorPatch → Type 0}
    (writer : Writer Kept Ends Allowed) where
  take_result-Held :
      (result : Result ItemNbt) (session : Session World)
      → Ends session
      → Held Ends (λ _. Ends) (take_result server result session)
  unfolding take_result
  take_result-Held (err error) session ends = writer.neutral_end.messages session _ ends
  take_result-Held (ok result) session ends = ends

  same_bridge :
      (a b : InspectorBridge World) (session : Session World) (loc : BlockLocation)
      (snapshot : ItemNbt)
      → HasBridge a session
      → HasBridge b session
      → a.capture loc session.world ≡ ok (some snapshot)
      → b.capture loc session.world ≡ ok (some snapshot)
  same_bridge a b session loc snapshot has_a has_b gives =
      ap (λ (c : InspectorBridge World). c.capture loc session.world)
        (some_injective b a (sym has_b ∙ has_a))
      ∙ gives

  pub apply_patch-Triple :
      (loc : BlockLocation) (snapshot : ItemNbt) (patch : InspectorPatch)
      → Allowed loc snapshot patch
      → Triple (KeptWith Kept (IsCapture loc snapshot)) Ends (λ _. Ends) (apply_patch server patch)
  unfolding apply_patch call_apply
  apply_patch-Triple loc snapshot patch allowed =
      then-Triple
        (weaken-Triple (λ session kept. writer.stays session kept.0) (λ bridge session kept. kept)
          (require_bridge-Triple server (IsCapture-Neutral server writer.neutral loc snapshot) []
            "apply"))
        (λ bridge. record {
          runs = λ session ((kept, (other, has_other, gives)), has). take_result-Held _ _ (
              writer.writes session bridge loc snapshot patch kept has
                (same_bridge other bridge session loc snapshot has_other has gives) allowed);
        })

module _ {World : Type 0} (server : Server World) {Kept : Session World → Type 0}
    (neutral : Neutral Kept) where
  send_apply_failure-Keeps : (result : ItemNbt) → Keeps Kept (send_apply_failure server result)
  unfolding send_apply_failure
  send_apply_failure-Keeps result =
      if-Triple (is_conflict server (get "status" result)) (send_message-Keeps neutral _)
        (send_message-Keeps neutral _)

  pub report_result-Keeps :
      (done : String) (result : ItemNbt) → Keeps Kept (report_result server done result)
  unfolding report_result
  report_result-Keeps done result =
      if-Triple (to_bool server.python.convert (get "ok" result)) (send_message-Keeps neutral _)
        (send_apply_failure-Keeps result)

-- A call that may raise, from a session that may end; where it goes on, the call gave the value.
pub uncaught-Triple :
    {World A : Type 0} {Ends : Session World → Type 0} (Starts : Session World → Type 0)
    (ends : (session : Session World) → Starts session → Ends session) (result : Result A)
    → Triple Starts Ends (λ value. KeptWith Starts (λ _. result ≡ ok value)) (uncaught result)
uncaught-Triple Starts ends (ok value) = record { runs = λ session starts. (starts, refl) }
uncaught-Triple Starts ends (err error) = record { runs = ends }

module _ {World : Type 0} {Kept Ends : Session World → Type 0}
    {Allowed : BlockLocation → ItemNbt → InspectorPatch → Type 0}
    (writer : Writer Kept Ends Allowed) {A : Type 0} {command : Command World A} where
  -- A command that only reads.
  pub reads : Keeps Kept command → Triple Kept Ends (λ _. Kept) command
  reads kept = weaken-Triple writer.stays (λ value session held. held) kept

  pub ends_after : Keeps Kept command → Triple Kept Ends (λ _. Ends) command
  ends_after kept =
      weaken-Triple writer.stays (λ value session held. writer.stays session held) kept
