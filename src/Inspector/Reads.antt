-- ===== src/Inspector/Reads.antt =====
-- The commands that only read: what they keep, and what a capture gives.
pub mod Targets
pub mod Audits
pub mod Locate
pub mod Inspect
use endstone_blockdata_api.Base.{
  ℕ, zero, suc, ◌≡◌, refl, String, Bool, true, false, not, Option, none, some, List, [], ◌∷◌, ◌==◌,
  contains, if◌then◌else◌, inl, inr, Option-cases, Bool-cases, Result, ok, err, string_eq, nat_eq,
}
use endstone_blockdata_api.Nbt.{Value, ItemNbt}
use endstone_blockdata_api.Model.{BlockLocation}
use endstone_blockdata_api.Inspector.Session.{InspectorBridge, Plugin, Server, Session, Sender}
use endstone_blockdata_api.Inspector.Command.{Command, give, refuse}
use endstone_blockdata_api.Inspector.Triples.{
  Held, Triple, Keeps, then-Triple, if-Triple, weaken-Triple, give-Keeps, stop-Keeps,
  uncaught-Keeps, Neutral, SameForms, refuse-Keeps, send_message-Keeps, send_all-Keeps,
}
use endstone_blockdata_api.Inspector.Bridge.{
  keep_connection, connect_bridge, connect_if_none, reconnect, missing_capabilities,
  check_capabilities, check_bridge, require_bridge, take_capture, capture_block, Connection,
  connected, unavailable, find_bridge,
}

module _ {World : Type 0} where
  -- A session that is connected to a bridge.
  abbrev pub HasBridge : InspectorBridge World → Session World → Type 0
  HasBridge bridge session = session.plugin.live_bridge ≡ some bridge

  -- What the session's bridge gives as the capture of a location.
  abbrev pub IsCapture : BlockLocation → ItemNbt → Session World → Type 0
  IsCapture loc snapshot session =
      (bridge : InspectorBridge World) × HasBridge bridge session
      × (bridge.capture loc session.world ≡ ok (some snapshot))

  -- A property, and a fact besides.
  abbrev pub KeptWith : (Session World → Type 0) → (Session World → Type 0) → Session World → Type 0
  KeptWith Kept Fact session = Kept session × Fact session

module _ {World : Type 0} (server : Server World) where
  keep_connection-forms :
      (c : Connection server) (plugin : Plugin World)
      → (keep_connection server c plugin).active_forms ≡ plugin.active_forms
  unfolding keep_connection
  keep_connection-forms (connected bridge capabilities) plugin = refl
  keep_connection-forms (unavailable reason) plugin = refl

  connect_if_none-SameForms :
      (held : Option (InspectorBridge World)) (world : World) (plugin : Plugin World)
      → plugin.live_bridge ≡ held
      → SameForms plugin (connect_if_none server held world plugin)
  unfolding connect_if_none connect_bridge
  connect_if_none-SameForms none world plugin absent =
      (keep_connection-forms (find_bridge server world) plugin, (λ bridge here. cc))
  connect_if_none-SameForms (some held) world plugin there = (refl, (λ bridge here. here))

  pub reconnect-SameForms :
      (world : World) (plugin : Plugin World) → SameForms plugin (reconnect server world plugin)
  unfolding reconnect
  reconnect-SameForms world plugin = connect_if_none-SameForms plugin.live_bridge world plugin refl

module _ {World : Type 0} (server : Server World) {Kept : Session World → Type 0}
    (neutral : Neutral Kept) where
  pub HasBridge-Neutral :
      (bridge : InspectorBridge World) → Neutral (KeptWith Kept (HasBridge bridge))
  HasBridge-Neutral bridge = record {
    messages = λ session sent kept. (neutral.messages session sent kept.0, kept.1);
    plugin =
        λ session after same kept. (neutral.plugin session after same kept.0, same.1 bridge kept.1);
  }

  pub IsCapture-Neutral :
      (loc : BlockLocation) (snapshot : ItemNbt) → Neutral (KeptWith Kept (IsCapture loc snapshot))
  IsCapture-Neutral loc snapshot = record {
    messages = λ session sent (kept, (bridge, has, gives)).
        (neutral.messages session sent kept, (bridge, has, gives));
    plugin = λ session after same (kept, (bridge, has, gives)).
        (neutral.plugin session after same kept, (bridge, same.1 bridge has, gives));
  }

  check_capabilities-Triple :
      (missing : List String) (bridge : InspectorBridge World)
      → Triple
          (KeptWith Kept (HasBridge bridge))
          Kept
          (λ b. KeptWith Kept (HasBridge b))
          (check_capabilities server missing bridge)
  unfolding check_capabilities
  check_capabilities-Triple [] bridge = record { runs = λ session kept. kept }
  check_capabilities-Triple (name ∷ missing) bridge = record {
    runs = λ session kept. neutral.messages session _ kept.0;
  }

  check_bridge-Held :
      (capabilities : List String) (method : String) (held : Option (InspectorBridge World))
      (session : Session World)
      → Kept session
      → session.plugin.live_bridge ≡ held
      → Held Kept
          (λ b. KeptWith Kept (HasBridge b))
          (check_bridge server capabilities method held session)
  unfolding check_bridge
  check_bridge-Held capabilities method none session kept has = neutral.messages session _ kept
  check_bridge-Held capabilities method (some bridge) session kept has =
      elim (Bool-cases (bridge.has_method method)) [
        | inl exposes ↦ rw exposes ((check_capabilities-Triple _ bridge).runs session (kept, has))
        | inr hides ↦ rw hides (neutral.messages session _ kept)
      ]

  pub require_bridge-Triple :
      (capabilities : List String) (method : String)
      → Triple Kept Kept
          (λ b. KeptWith Kept (HasBridge b))
          (require_bridge server capabilities method)
  unfolding require_bridge
  require_bridge-Triple capabilities method = record {
    runs = λ session kept.
        check_bridge-Held capabilities method _ _
          (neutral.plugin session _ (reconnect-SameForms server session.world session.plugin) kept)
          refl;
  }

  take_capture-Held :
      (loc : BlockLocation) (bridge : InspectorBridge World) (result : Result (Option ItemNbt))
      (session : Session World)
      → Kept session
      → HasBridge bridge session
      → bridge.capture loc session.world ≡ result
      → Held Kept
          (λ snapshot. KeptWith Kept (IsCapture loc snapshot))
          (take_capture server loc result session)
  unfolding take_capture
  take_capture-Held loc bridge (err error) session kept has gives = neutral.messages session _ kept
  take_capture-Held loc bridge (ok none) session kept has gives = neutral.messages session _ kept
  take_capture-Held loc bridge (ok (some snapshot)) session kept has gives =
      (kept, (bridge, has, gives))

  pub capture_block-Triple :
      (loc : BlockLocation)
      → Triple Kept Kept
          (λ snapshot. KeptWith Kept (IsCapture loc snapshot))
          (capture_block server loc)
  unfolding capture_block
  capture_block-Triple loc = then-Triple (require_bridge-Triple [] "capture") (λ bridge. record {
    runs = λ session kept. take_capture-Held loc bridge _ session kept.0 kept.1 refl;
  })

  pub require_bridge-Keeps :
      (capabilities : List String) (method : String)
      → Keeps Kept (require_bridge server capabilities method)
  require_bridge-Keeps capabilities method =
      weaken-Triple (λ session kept. kept) (λ bridge session kept. kept.0)
        (require_bridge-Triple capabilities method)

  pub capture_block-Keeps : (loc : BlockLocation) → Keeps Kept (capture_block server loc)
  capture_block-Keeps loc =
      weaken-Triple (λ session kept. kept) (λ snapshot session kept. kept.0)
        (capture_block-Triple loc)
