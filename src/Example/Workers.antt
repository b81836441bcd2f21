-- ===== src/Example/Workers.antt =====
-- The theorems on the supervisor and its workers, at workers with room for two.
use wup_demo.Prelude.{
  ℕ, ◌+◌, ◌*◌, ◌≤◌, String, string_eq, Bool, true, false, not, none, some, List, [], ◌∷◌, keep,
  length, contains, ◌≡◌, refl, sym, ap, ◌∙◌, arith, Option,
}
use wup_demo.Example.Tally.{print, read, read-print}
use wup_demo.HashMap
use wup_demo.Commands.{ControlCommand}
use wup_demo.Aggregator.{
  Supervisor, Sent, WorkerHandle, new, subscribe, is_subscribed, has_id, spawn_workers,
  spawn_worker, total_subscriptions, worker_count, offer,
}
use wup_demo.Aggregator.Departures.{unsubscribe}
use wup_demo.Aggregator.Names.{Numbers}
use wup_demo.Aggregator.Capacity.{IsWithin}
use wup_demo.Aggregator.Reachable.{start, next, subscribed, reachable-IsWithin}
use wup_demo.Aggregator.Spawning.{IsPlaced}
use wup_demo.Aggregator.Subscribing.{subscribe-IsPlaced, spawn_workers_endless}
use wup_demo.Aggregator.Leaving.{keeps_id, is_subscribed-unsubscribe, subscribe_again}
use wup_demo.Worker
use wup_demo.Worker.{Writer}
use wup_demo.Worker.Commands.{handle_all, offer_agrees}
use wup_demo.Worker.Connection.{
  WsHandler, Incoming, Attempt, unreachable, connected, default_config, run, attempt, connection,
  run_events,
}
use wup_demo.Worker.Backoff.{delays_from, failures, delays-run}

abbrev number : Option ℕ → ℕ
number none = 0
number (some n) = n

print_injective : (m n : ℕ) → print m ≡ print n → m ≡ n
print_injective m n e = ap number (sym (read-print m) ∙ ap read e ∙ read-print n)

instance abbrev numbers : Numbers
numbers = record { to_string = print; to_string_injective = print_injective }

instance abbrev writer : Writer
writer = record { object = λ t ids. t }

-- Every channel is open but that of the worker that is named.
abbrev all_open : String → Bool
all_open w = true

abbrev asked : List String
asked = "a" ∷ "b" ∷ "c" ∷ []

subscribe-IsPlaced_example :
    (t : Supervisor) × (sent : Sent) × (subscribe all_open 3 asked (new 2) ≡ some (t, sent))
    × IsPlaced
        (contains asked)
        (length (keep (λ id. not (is_subscribed id (new 2))) asked))
        (new 2)
        t
unfolding HashMap.get
subscribe-IsPlaced_example =
    subscribe-IsPlaced all_open 3 asked (new 2) (omega arith) (omega arith, omega arith)
      (λ k l. refl)

placed :
    (t : Supervisor) × (sent : Sent) × (subscribe all_open 3 asked (new 2) ≡ some (t, sent))
    × IsPlaced
        (contains asked)
        (length (keep (λ id. not (is_subscribed id (new 2))) asked))
        (new 2)
        t
unfolding HashMap.get
placed =
    subscribe-IsPlaced all_open 3 asked (new 2) (omega arith) (omega arith, omega arith)
      (λ k l. refl)

reachable-IsWithin_example :
    IsWithin 2 placed.0.workers × (total_subscriptions placed.0 ≤ worker_count placed.0 * 2)
reachable-IsWithin_example =
    reachable-IsWithin 2 placed.0 (next start (subscribed all_open 3 asked placed.1 placed.2))

spawn_workers_endless_example : spawn_workers spawn_worker 5 ("a" ∷ []) (new 0) ≡ none
spawn_workers_endless_example = spawn_workers_endless 5 "a" [] (new 0) refl

-- One worker, which has one identifier, and whose channel is closed.
abbrev one_worker : Supervisor
one_worker = record (new 2) { workers = ("w", record { subscribed_ids = "a" ∷ [] }) ∷ [] }

is_subscribed-unsubscribe_example :
    is_subscribed "a" (unsubscribe (λ w. false) ("a" ∷ []) one_worker).0
    ≡ keeps_id (λ w. false) ("a" ∷ []) "a" one_worker.workers
is_subscribed-unsubscribe_example = is_subscribed-unsubscribe (λ w. false) ("a" ∷ []) one_worker "a"

listed : (x : String) → contains ("a" ∷ []) x ≡ true → is_subscribed x one_worker ≡ true
unfolding is_subscribed has_id
listed x e = ground (arith, e)

subscribe_again_example : subscribe (λ w. false) 1 ("a" ∷ []) one_worker ≡ some (one_worker, [])
subscribe_again_example = subscribe_again (λ w. false) 1 ("a" ∷ []) one_worker listed

abbrev handle : WorkerHandle
handle = record { subscribed_ids = "a" ∷ [] }

offer_agrees_example :
    (handle_all
      (offer (λ id. id) all_open 2 "w" handle ("b" ∷ "c" ∷ [])).sent
      (Worker.new ("a" ∷ []))).subscribed_ids
    ≡ (offer (λ id. id) all_open 2 "w" handle ("b" ∷ "c" ∷ [])).handle.subscribed_ids
unfolding Worker.new
offer_agrees_example =
    offer_agrees (λ id. id) all_open 2 "w" handle ("b" ∷ "c" ∷ []) (Worker.new ("a" ∷ [])) refl
      (refl, (refl, tt))

abbrev idle : WsHandler ℕ
idle = record {
  on_connect_message = λ h. some "hello";
  on_message = λ s h. h + 1;
  handle_command = λ cmd h. (h, none);
}

abbrev attempts : List Attempt
attempts =
    unreachable
    ∷ connected (Incoming.text "x" ∷ Incoming.ended ∷ [])
    ∷ unreachable
    ∷ connected (Incoming.command ControlCommand.shutdown ∷ [])
    ∷ []

delays-run_example :
    (run idle (λ m. true) default_config attempts 0).delays
    ≡ delays_from 1000 30000 0 (failures idle (λ m. true) default_config attempts 0)
delays-run_example = delays-run idle (λ m. true) default_config attempts 0

three_failures : failures idle (λ m. true) default_config attempts 0 ≡ 3
unfolding failures attempt connection run_events
three_failures = refl
