-- ===== src/Aggregator.antt =====
-- `Supervisor` of crates/aggregator/src/supervisor.rs: the workers and what each is subscribed to.
-- The channel and the task of a worker stand behind its identifier: whether the send of a command
-- returns with success is an input of each call, and what was sent is an output. A send to a full
-- channel waits until the worker reads from it; the model is of calls in which every send returns.
-- The two ways to subscribe share
-- their text but for the items they place, which are a parameter of the shared part.
pub mod Names
pub mod Departures
pub mod Offers
pub mod Capacity
pub mod Placing
pub mod Spawning
pub mod Subscribing
pub mod Leaving
pub mod Reachable
use wup_demo.Prelude.{
  ℕ, zero, suc, ◌+◌, ◌-◌, ◌%◌, min, String, string_eq, Bool, true, false, not, Option, none, some,
  List, [], ◌∷◌, ◌++◌, map, length, take, drop, keep, any, ltb, contains, if◌then◌else◌,
}
use wup_demo.HashMap
use wup_demo.HashMap.{HashMap}
use wup_demo.Commands.{ControlCommand}
use wup_demo.Events.{TokenMapping}
use wup_demo.Orderbook.{u64_mod}
use wup_demo.Aggregator.Names.{Numbers, worker_id}

-- The commands that were sent, each to a worker.
abbrev pub Sent : Type 0
Sent = List (String × ControlCommand)

pub record WorkerHandle : Type 0 where
  pub subscribed_ids : List String

abbrev pub Workers : Type 0
Workers = HashMap String WorkerHandle

pub record Supervisor : Type 0 where
  pub max_subs_per_worker : ℕ
  pub workers : Workers
  pub worker_counter : ℕ
  pub token_mappings : HashMap String TokenMapping

abbrev pub new : ℕ → Supervisor
new max_subs_per_worker = record {
  max_subs_per_worker = max_subs_per_worker;
  workers = [];
  worker_counter = 0;
  token_mappings = [];
}

-- Some worker has the identifier on its list.
unfoldable pub has_id : String → Workers → Bool
has_id id [] = false
has_id id ((w, h) ∷ ws) =
    let rest = has_id id ws in if contains h.subscribed_ids id then true else rest

unfoldable pub is_subscribed : String → Supervisor → Bool
is_subscribed id s = has_id id s.workers

unfoldable pub sum_ids : Workers → ℕ
sum_ids [] = 0
sum_ids ((w, h) ∷ ws) = length h.subscribed_ids + sum_ids ws

unfoldable pub total_subscriptions : Supervisor → ℕ
total_subscriptions s = sum_ids s.workers

unfoldable pub worker_count : Supervisor → ℕ
worker_count s = length s.workers

-- One worker after it was offered items: its list, the items left, the commands sent.
pub record Offer (A : Type 0) : Type 0 where
  pub handle : WorkerHandle
  pub remaining : List A
  pub sent : Sent

pub record Filled (A : Type 0) : Type 0 where
  pub workers : Workers
  pub remaining : List A
  pub sent : Sent

module _ {A : Type 0} (id_of : A → String) (accepts : String → Bool) (max : ℕ) where
  -- What a worker with room is sent, or, if its channel is closed, what goes back to the end.
  abbrev pub send_subscribe : String → WorkerHandle → List A → List A → Bool → Offer A
  send_subscribe w h to_add rest true =
      let ids = map id_of to_add in
      record {
        handle = record { subscribed_ids = h.subscribed_ids ++ ids };
        remaining = rest;
        sent = (w, ControlCommand.subscribe ids) ∷ [];
      }
  send_subscribe w h to_add rest false = record {
    handle = h;
    remaining = rest ++ to_add;
    sent = [];
  }

  -- The body of the loop over the workers, with the test that ends it.
  unfoldable pub offer : String → WorkerHandle → List A → Offer A
  offer w h [] = record { handle = h; remaining = []; sent = [] }
  offer w h (x ∷ xs) =
      let available = max - length h.subscribed_ids in
      let n = min available (length (x ∷ xs)) in
      if ltb 0 available
      then send_subscribe w h (take n (x ∷ xs)) (drop n (x ∷ xs)) (accepts w)
      else record { handle = h; remaining = x ∷ xs; sent = [] }

  unfoldable pub fill : Workers → List A → Filled A
  fill [] remaining = record { workers = []; remaining = remaining; sent = [] }
  fill ((w, h) ∷ ws) remaining =
      let o = offer w h remaining in
      let rest = fill ws o.remaining in
      record {
        workers = (w, o.handle) ∷ rest.workers;
        remaining = rest.remaining;
        sent = o.sent ++ rest.sent;
      }

abbrev pub with_sent : Sent → Option Supervisor → Option (Supervisor × Sent)
with_sent sent none = none
with_sent sent (some s) = some (s, sent)

-- The loop that stores the mappings of the tokens that are new.
unfoldable pub store_mappings :
    (String → Bool) → List TokenMapping → HashMap String TokenMapping → HashMap String TokenMapping
store_mappings subscribed [] m = m
store_mappings subscribed (mapping ∷ mappings) m =
    store_mappings subscribed mappings (
      if subscribed mapping.clob_token_id
      then m
      else HashMap.insert mapping.clob_token_id mapping m)

module _ ⦃N : Numbers⦄ where
  unfoldable pub spawn_worker : List String → Supervisor → Supervisor
  spawn_worker initial_ids s =
      let counter = (s.worker_counter + 1) % u64_mod in
      record s {
        worker_counter = counter;
        workers =
            HashMap.insert (worker_id counter) (record { subscribed_ids = initial_ids }) s.workers;
      }

  unfoldable pub spawn_worker_with_mappings : List TokenMapping → Supervisor → Supervisor
  spawn_worker_with_mappings mappings s =
      spawn_worker (map (λ (m : TokenMapping). m.clob_token_id) mappings) s

  -- `while !remaining.is_empty()`, on fuel.
  unfoldable pub spawn_workers :
      {A : Type 0}
      → (List A → Supervisor → Supervisor)
      → ℕ
      → List A
      → Supervisor
      → Option Supervisor
  spawn_workers spawn fuel [] s = some s
  spawn_workers spawn zero (x ∷ xs) s = none
  spawn_workers spawn (suc fuel) (x ∷ xs) s =
      let n = min s.max_subs_per_worker (length (x ∷ xs)) in
      spawn_workers spawn fuel (drop n (x ∷ xs)) (spawn (take n (x ∷ xs)) s)

  -- What both ways to subscribe do with the items that are new.
  unfoldable pub place :
      {A : Type 0}
      → (A → String)
      → (List A → Supervisor → Supervisor)
      → (String → Bool)
      → ℕ
      → List A
      → Supervisor
      → Option (Supervisor × Sent)
  place id_of spawn accepts fuel [] s = some (s, [])
  place id_of spawn accepts fuel (x ∷ xs) s =
      let filled = fill id_of accepts s.max_subs_per_worker s.workers (x ∷ xs) in
      with_sent filled.sent
        (spawn_workers spawn fuel filled.remaining (record s { workers = filled.workers }))

  unfoldable pub subscribe :
      (String → Bool) → ℕ → List String → Supervisor → Option (Supervisor × Sent)
  subscribe accepts fuel ids s =
      place (λ id. id) spawn_worker accepts fuel (keep (λ id. not (is_subscribed id s)) ids) s

  unfoldable pub subscribe_with_mappings :
      (String → Bool) → ℕ → List TokenMapping → Supervisor → Option (Supervisor × Sent)
  subscribe_with_mappings accepts fuel mappings s =
      let subscribed : String → Bool = λ id. is_subscribed id s in
      place (λ (m : TokenMapping). m.clob_token_id) spawn_worker_with_mappings accepts fuel
        (keep (λ (m : TokenMapping). not (subscribed m.clob_token_id)) mappings)
        (record s { token_mappings = store_mappings subscribed mappings s.token_mappings })
