-- ===== src/Inspector/Audits.antt =====
-- `_handle_audit`: `/bd audit start`, `stop` and `history`.
use mathlib.Core.List.{◌++◌ as append}
use Prim.Native.String.{◌++◌}
use endstone_blockdata_api.Base.{
  ℕ, suc, ◌-◌, String, Bool, true, false, Option, none, some, List, [], ◌∷◌, map, ◌==◌, contains,
  if◌then◌else◌, string_eq, nat_eq,
}
use endstone_blockdata_api.Base.Int.{pos}
use endstone_blockdata_api.Base.Lists.{length, drop}
use endstone_blockdata_api.Base.Texts.{texts}
use endstone_blockdata_api.Base.Dict
use endstone_blockdata_api.Nbt.{bool, ItemNbt}
use endstone_blockdata_api.Nbt.Conversion.{to_str, get_key}
use endstone_blockdata_api.Model.{BlockLocation}
use endstone_blockdata_api.Inspector.Session.{
  AuditKey, audit_key_eq, InspectorChange, InspectorDelta, Server, Sender,
}
use endstone_blockdata_api.Inspector.Command.{
  Command, ◌>>=◌, ◌>>◌, give, send_message, send_all, refuse, uncaught,
}
use endstone_blockdata_api.Inspector.Bridge.{number, position_text, capture_block}
use endstone_blockdata_api.Inspector.Difference.{diff_snapshots}
use endstone_blockdata_api.Inspector.Targets.{key_of_sender, resolve_target}

module _ {ℓ} {World : Type ℓ} (server : Server World) where
  -- One line of the history; `location['x']` raises where the key is missing.
  unfoldable pub history_line : ℕ → InspectorDelta → Command World (Unit {0})
  history_line index delta = do
    x ← uncaught (get_key "x" delta.location)
    y ← uncaught (get_key "y" delta.location)
    z ← uncaught (get_key "z" delta.location)
    send_message (
        texts (
          " §7#"
          ∷ number server.python (pos index)
          ∷ ": ("
          ∷ to_str server.python.convert x
          ∷ ", "
          ∷ to_str server.python.convert y
          ∷ ", "
          ∷ to_str server.python.convert z
          ∷ ") changes="
          ∷ number server.python (pos (length delta.inventory_changes))
          ∷ []))

  unfoldable pub history_lines : ℕ → List InspectorDelta → Command World (Unit {0})
  history_lines index [] = give tt
  history_lines index (delta ∷ deltas) = do
    history_line index delta
    history_lines (suc index) deltas

  -- The last five of the log.
  unfoldable pub show_history : Command World (Unit {0})
  show_history session =
      (do
        send_message (
            texts (
              "§e=== Live Audit History ("
              ∷ number server.python (pos (length session.plugin.audit_logs))
              ∷ " sessions) ==="
              ∷ []))
        history_lines 1 (drop (length session.plugin.audit_logs - 5) session.plugin.audit_logs))
        session

  unfoldable pub keep_baseline : AuditKey → ItemNbt → Command World (Unit {0})
  keep_baseline key snapshot session = give tt (record session {
    plugin = record session.plugin {
      audit_baselines = Dict.insert key snapshot session.plugin.audit_baselines;
    };
  })

  unfoldable pub start_audit : AuditKey → Command World (Unit {0})
  start_audit key = do
    snapshot ← capture_block server key.target
    keep_baseline key snapshot
    send_message
        (texts ("§aStarted live audit for " ∷ position_text server.python key.target ∷ "." ∷ []))

  unfoldable pub take_baseline : Option ItemNbt → Command World ItemNbt
  take_baseline none = refuse "§cNo active audit baseline found for this block."
  take_baseline (some baseline) = give baseline

  unfoldable pub find_baseline : AuditKey → Command World ItemNbt
  find_baseline key session = take_baseline (Dict.lookup key session.plugin.audit_baselines) session

  unfoldable pub drop_baseline : AuditKey → Command World (Unit {0})
  drop_baseline key session = give tt (record session {
    plugin = record session.plugin {
      audit_baselines = Dict.erase key session.plugin.audit_baselines;
    };
  })

  unfoldable pub log_delta : InspectorDelta → Command World (Unit {0})
  log_delta delta session = give tt (record session {
    plugin = record session.plugin { audit_logs = append session.plugin.audit_logs (delta ∷ []) };
  })

  unfoldable pub change_line : InspectorChange → String
  change_line change = texts (
      "  §e["
      ∷ change.kind
      ∷ "] §fSlot "
      ∷ number server.python change.slot
      ∷ ": "
      ∷ server.python.dumps change.before
      ∷ " -> "
      ∷ server.python.dumps change.after
      ∷ [])

  unfoldable pub report_delta : BlockLocation → InspectorDelta → List String
  report_delta target delta =
      texts ("§e=== Live Audit Report for " ∷ position_text server.python target ∷ " ===" ∷ [])
      ∷ texts (
          "§7Block Changed: §f"
          ∷ to_str server.python.convert (bool delta.block_changed)
          ∷ " §7NBT Changed: §f"
          ∷ to_str server.python.convert (bool delta.actor_nbt_changed)
          ∷ [])
      ∷ ("§7Inventory Changes: §b" ++ number server.python (pos (length delta.inventory_changes)))
      ∷ map change_line delta.inventory_changes

  unfoldable pub stop_audit : AuditKey → Command World (Unit {0})
  stop_audit key = do
    baseline ← find_baseline key
    current ← capture_block server key.target
    drop_baseline key
    delta ← uncaught (diff_snapshots server.python baseline current)
    log_delta delta
    send_all (report_delta key.target delta)

  unfoldable pub start_or_stop : Bool → AuditKey → Command World (Unit {0})
  start_or_stop starts key = if starts then start_audit key else stop_audit key

  unfoldable pub run_audit : Sender → Bool → List String → Command World (Unit {0})
  run_audit sender starts args =
      if contains (1 ∷ 4 ∷ []) (length args)
      then (do
        target ←
            resolve_target server.python sender (drop 1 args) "/bd audit <start|stop> [<x> <y> <z>]"
        start_or_stop starts
            (record { sender_key = key_of_sender server.python sender; target = target }))
      else refuse "§cUsage: /bd audit <start|stop> [x y z]"

  abbrev audit_help : String
  audit_help = "§cUsage: /bd audit <start|stop> [x y z] or /bd audit history"

  unfoldable pub handle_audit : Sender → List String → Command World (Unit {0})
  handle_audit sender [] = refuse audit_help
  handle_audit sender (operation ∷ args) =
      let word = server.python.lower operation in
      if word == "history"
      then (if length args == 0 then show_history else refuse "§cUsage: /bd audit history")
      else if word == "start"
      then run_audit sender true (operation ∷ args)
      else if word == "stop"
      then run_audit sender false (operation ∷ args)
      else refuse audit_help
