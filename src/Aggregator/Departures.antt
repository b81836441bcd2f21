-- ===== src/Aggregator/Departures.antt =====
-- `unsubscribe` and the end of `run` of crates/aggregator/src/supervisor.rs.
use wup_demo.Prelude.{
  String, string_eq, Bool, true, false, not, List, [], ◌∷◌, ◌++◌, keep, contains, if◌then◌else◌,
}
use wup_demo.HashMap
use wup_demo.HashMap.{HashMap}
use wup_demo.Commands.{ControlCommand}
use wup_demo.Events.{TokenMapping}
use wup_demo.Aggregator.{WorkerHandle, Workers, Supervisor, Sent}

-- `for id in &to_remove { token_mappings.remove(id) }`
unfoldable pub remove_mappings :
    List String → HashMap String TokenMapping → HashMap String TokenMapping
remove_mappings [] m = m
remove_mappings (id ∷ ids) m = remove_mappings ids (HashMap.remove id m)

-- One worker after identifiers were withdrawn: its list, the mappings, the commands sent.
pub record Withdrawn : Type 0 where
  pub handle : WorkerHandle
  pub token_mappings : HashMap String TokenMapping
  pub sent : Sent

abbrev pub send_unsubscribe :
    String → WorkerHandle → List String → HashMap String TokenMapping → Bool → Withdrawn
send_unsubscribe w h to_remove m true = record {
  handle = record { subscribed_ids = keep (λ id. not (contains to_remove id)) h.subscribed_ids };
  token_mappings = remove_mappings to_remove m;
  sent = (w, ControlCommand.unsubscribe to_remove) ∷ [];
}
send_unsubscribe w h to_remove m false = record { handle = h; token_mappings = m; sent = [] }

-- The body of the loop of `unsubscribe`.
abbrev pub withdraw_some :
    String → WorkerHandle → HashMap String TokenMapping → Bool → List String → Withdrawn
withdraw_some w h m accepted [] = record { handle = h; token_mappings = m; sent = [] }
withdraw_some w h m accepted (id ∷ ids) = send_unsubscribe w h (id ∷ ids) m accepted

unfoldable pub withdraw :
    (String → Bool) → List String → String → WorkerHandle → HashMap String TokenMapping → Withdrawn
withdraw accepts ids w h m = withdraw_some w h m (accepts w) (keep (contains h.subscribed_ids) ids)

unfoldable pub withdraw_all :
    (String → Bool)
    → List String
    → Workers
    → HashMap String TokenMapping
    → Workers × (HashMap String TokenMapping × Sent)
withdraw_all accepts ids [] m = ([], (m, []))
withdraw_all accepts ids ((w, h) ∷ ws) m =
    let d = withdraw accepts ids w h m in
    let rest = withdraw_all accepts ids ws d.token_mappings in
    ((w, d.handle) ∷ rest.0, (rest.1.0, d.sent ++ rest.1.1))

unfoldable pub unsubscribe : (String → Bool) → List String → Supervisor → Supervisor × Sent
unsubscribe accepts ids s =
    let r = withdraw_all accepts ids s.workers s.token_mappings in
    (record s { workers = r.0; token_mappings = r.1.0 }, r.1.1)

-- `run` after the signal: every worker is told to stop, then all are awaited and dropped.
unfoldable pub stop_workers : (String → Bool) → Workers → Sent
stop_workers accepts [] = []
stop_workers accepts ((w, h) ∷ ws) =
    let rest = stop_workers accepts ws in
    if accepts w then (w, ControlCommand.shutdown) ∷ rest else rest

unfoldable pub run : (String → Bool) → Supervisor → Supervisor × Sent
run accepts s = (record s { workers = [] }, stop_workers accepts s.workers)
