-- ===== src/Inspector/Reads/Audits.antt =====
-- `/bd audit` keeps what is neutral.
use endstone_blockdata_api.Base.{
  ℕ, suc, ◌-◌, refl, String, Bool, true, false, Option, none, some, List, [], ◌∷◌, contains, ◌==◌,
  string_eq, nat_eq,
}
use endstone_blockdata_api.Base.Lists.{length, drop}
use endstone_blockdata_api.Nbt.{ItemNbt}
use endstone_blockdata_api.Nbt.Conversion.{get_key}
use endstone_blockdata_api.Inspector.Session.{
  AuditKey, audit_key_eq, InspectorDelta, Server, Session, Sender,
}
use endstone_blockdata_api.Inspector.Triples.{
  Keeps, then-Triple, if-Triple, give-Keeps, uncaught-Keeps, Neutral, refuse-Keeps,
  send_message-Keeps, send_all-Keeps,
}
use endstone_blockdata_api.Inspector.Difference.{diff_snapshots}
use endstone_blockdata_api.Inspector.Reads.{capture_block-Keeps}
use endstone_blockdata_api.Inspector.Reads.Targets.{resolve_target-Keeps}
use endstone_blockdata_api.Inspector.Audits.{
  history_line, history_lines, show_history, keep_baseline, start_audit, find_baseline,
  drop_baseline, log_delta, stop_audit, start_or_stop, run_audit, handle_audit, take_baseline,
}

module _ {World : Type 0} (server : Server World) {Kept : Session World → Type 0}
    (neutral : Neutral Kept) where
  history_line-Keeps :
      (index : ℕ) (delta : InspectorDelta) → Keeps Kept (history_line server index delta)
  unfolding history_line
  history_line-Keeps index delta = then-Triple (uncaught-Keeps (get_key "x" delta.location)) (λ x.
      then-Triple (uncaught-Keeps (get_key "y" delta.location)) (λ y.
        then-Triple (uncaught-Keeps (get_key "z" delta.location))
          (λ z. send_message-Keeps neutral _)))

  history_lines-Keeps :
      (index : ℕ) (deltas : List InspectorDelta) → Keeps Kept (history_lines server index deltas)
  unfolding history_lines
  history_lines-Keeps index [] = give-Keeps tt
  history_lines-Keeps index (delta ∷ deltas) =
      then-Triple (history_line-Keeps index delta) (λ _. history_lines-Keeps (suc index) deltas)

  show_history-Keeps : Keeps Kept (show_history server)
  unfolding show_history
  show_history-Keeps = record {
    runs = λ session kept.
        (then-Triple (send_message-Keeps neutral _) (λ _.
            history_lines-Keeps 1
              (drop (length session.plugin.audit_logs - 5) session.plugin.audit_logs))).runs
          session kept;
  }

  keep_baseline-Keeps :
      (key : AuditKey) (snapshot : ItemNbt) → Keeps Kept (keep_baseline server key snapshot)
  unfolding keep_baseline
  keep_baseline-Keeps key snapshot = record {
    runs = λ session kept. neutral.plugin session _ (refl, (λ bridge held. held)) kept;
  }

  start_audit-Keeps : (key : AuditKey) → Keeps Kept (start_audit server key)
  unfolding start_audit
  start_audit-Keeps key = then-Triple (capture_block-Keeps server neutral key.target) (λ snapshot.
      then-Triple (keep_baseline-Keeps key snapshot) (λ _. send_message-Keeps neutral _))

  take_baseline-Keeps : (found : Option ItemNbt) → Keeps Kept (take_baseline server found)
  unfolding take_baseline
  take_baseline-Keeps none = refuse-Keeps neutral _
  take_baseline-Keeps (some baseline) = give-Keeps baseline

  find_baseline-Keeps : (key : AuditKey) → Keeps Kept (find_baseline server key)
  unfolding find_baseline
  find_baseline-Keeps key = record {
    runs = λ session kept. (take_baseline-Keeps _).runs session kept;
  }

  drop_baseline-Keeps : (key : AuditKey) → Keeps Kept (drop_baseline server key)
  unfolding drop_baseline
  drop_baseline-Keeps key = record {
    runs = λ session kept. neutral.plugin session _ (refl, (λ bridge held. held)) kept;
  }

  log_delta-Keeps : (delta : InspectorDelta) → Keeps Kept (log_delta server delta)
  unfolding log_delta
  log_delta-Keeps delta = record {
    runs = λ session kept. neutral.plugin session _ (refl, (λ bridge held. held)) kept;
  }

  stop_audit-Keeps : (key : AuditKey) → Keeps Kept (stop_audit server key)
  unfolding stop_audit
  stop_audit-Keeps key = then-Triple (find_baseline-Keeps key) (λ baseline.
      then-Triple (capture_block-Keeps server neutral key.target) (λ current.
        then-Triple (drop_baseline-Keeps key) (λ _.
          then-Triple (uncaught-Keeps (diff_snapshots server.python baseline current))
            (λ delta. then-Triple (log_delta-Keeps delta) (λ _. send_all-Keeps neutral _)))))

  run_audit-Keeps :
      (sender : Sender) (starts : Bool) (args : List String)
      → Keeps Kept (run_audit server sender starts args)
  unfolding run_audit start_or_stop
  run_audit-Keeps sender starts args =
      if-Triple (contains (1 ∷ 4 ∷ []) (length args))
        (then-Triple (resolve_target-Keeps server.python neutral sender (drop 1 args) _)
          (λ target. if-Triple starts (start_audit-Keeps _) (stop_audit-Keeps _)))
        (refuse-Keeps neutral _)

  pub handle_audit-Keeps :
      (sender : Sender) (args : List String) → Keeps Kept (handle_audit server sender args)
  unfolding handle_audit
  handle_audit-Keeps sender [] = refuse-Keeps neutral _
  handle_audit-Keeps sender (operation ∷ args) =
      if-Triple (server.python.lower operation == "history")
        (if-Triple (length args == 0) show_history-Keeps (refuse-Keeps neutral _))
        (if-Triple (server.python.lower operation == "start") (run_audit-Keeps sender true _) (
          if-Triple (server.python.lower operation == "stop") (run_audit-Keeps sender false _)
            (refuse-Keeps neutral _)))
