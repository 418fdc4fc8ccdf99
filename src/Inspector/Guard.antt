-- ===== src/Inspector/Guard.antt =====
-- A command of the inspector changes the world by one guarded write at most.
use endstone_blockdata_api.Base.{◌≡◌, refl, sym, ap, ◌∙◌, ◌⊎◌, inl, inr, String, some, List, ok}
use endstone_blockdata_api.Nbt.{ItemNbt}
use endstone_blockdata_api.Model.{BlockLocation}
use endstone_blockdata_api.Inspector.Session.{
  InspectorBridge, InspectorPatch, Server, Session, Sender,
}
use endstone_blockdata_api.Inspector.Command.{Ending, goes_on, returns, raises}
use endstone_blockdata_api.Inspector.Triples.{Held}
use endstone_blockdata_api.Inspector.Dispatch.{dispatch}
use endstone_blockdata_api.Inspector.Reads.{HasBridge}
use endstone_blockdata_api.Inspector.Writes.{Writer, written}
use endstone_blockdata_api.Inspector.Calls.{IsGuarded, Locks, dispatch-Triple}

module _ {World : Type 0} (server : Server World) (bridge : InspectorBridge World)
    (world : World) where
  -- The world is unchanged, or is what the bridge's `apply` made of it, with the policy
  -- `fail_if_changed`, for a guarded patch on a capture that the bridge gave in that same world.
  abbrev pub AfterOneWrite : World → Type 0
  AfterOneWrite after =
      (after ≡ world)
      ⊎ ((loc : BlockLocation) × (snapshot : ItemNbt) × (patch : InspectorPatch) × (bridge.capture
              loc world
            ≡ ok (some snapshot))
          × IsGuarded server.python loc snapshot patch
          × (after ≡ (bridge.apply patch "fail_if_changed" world).1))

  abbrev Unwritten : Session World → Type 0
  Unwritten session = (session.world ≡ world) × HasBridge bridge session

  abbrev Ended : Session World → Type 0
  Ended session = AfterOneWrite session.world

  some_injective : {A : Type 0} (a b : A) → some a ≡ some b → a ≡ b
  some_injective a b h = cc

  write-Ended :
      (session : Session World) (other : InspectorBridge World) (loc : BlockLocation)
      (snapshot : ItemNbt) (patch : InspectorPatch)
      → Unwritten session
      → HasBridge other session
      → other.capture loc session.world ≡ ok (some snapshot)
      → IsGuarded server.python loc snapshot patch
      → Ended (written other patch session)
  write-Ended session other loc snapshot patch (same, has) has_other gives guarded =
      let same_bridge = some_injective other bridge (sym has_other ∙ has) in
      inr (
        loc,
        snapshot,
        patch,
        sym (
              ap (λ (b : InspectorBridge World). b.capture loc session.world) same_bridge
              ∙ ap (λ w. bridge.capture loc w) same)
            ∙ gives,
        guarded,
        ap (λ (b : InspectorBridge World). (b.apply patch "fail_if_changed" session.world).1)
              same_bridge
            ∙ ap (λ w. (bridge.apply patch "fail_if_changed" w).1) same,
      )

  writer : Writer Unwritten Ended (IsGuarded server.python)
  writer = record {
    neutral = record {
      messages = λ session sent kept. kept;
      plugin = λ session after same kept. (kept.0, same.1 bridge kept.1);
    };
    neutral_end = record {
      messages = λ session sent ended. ended;
      plugin = λ session after same ended. ended;
    };
    stays = λ session kept. inl kept.0;
    writes = write-Ended;
  }

  locks : Locks Unwritten
  locks = record {
    removal = λ session key kept. kept;
    grant = λ session key kept. kept;
    sending = λ session sent kept. kept;
  }

  Held-Ended :
      (outcome : Ending (Unit {0})) (session : Session World)
      → Held Ended (λ _. Ended) (outcome, session)
      → Ended session
  Held-Ended (goes_on value) session held = held
  Held-Ended returns session held = held
  Held-Ended (raises error) session held = held

-- From a session that is connected to a bridge, any command of the inspector leaves the world as
-- it was, or as one `apply` of the bridge makes it: with the policy `fail_if_changed`, for a patch
-- on a capture that the bridge gives in that same world, with the location that this capture shows
-- and with its revision. An item patch clears one slot or puts one item in it, and changes nothing
-- else; the slot is not negative and below the capacity of the container that the capture shows. A
-- state patch sets one property and changes nothing else.
pub dispatch-AfterOneWrite :
    {World : Type 0} (server : Server World) (bridge : InspectorBridge World) (sender : Sender)
    (args : List String) (session : Session World)
    → HasBridge bridge session
    → AfterOneWrite server bridge session.world (dispatch server sender args session).1.world
dispatch-AfterOneWrite server bridge sender args session has =
    Held-Ended server bridge session.world (dispatch server sender args session).0
      (dispatch server sender args session).1
      ((dispatch-Triple server (writer server bridge session.world)
          (locks server bridge session.world) sender args).runs
        session (refl, has))
