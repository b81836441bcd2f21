-- ===== src/Aggregator/Subscribing.antt =====
-- The two ways to subscribe, as a whole.
use wup_demo.Prelude.{
  ℕ, zero, suc, ◌+◌, ◌≤◌, ◌<◌, min, String, string_eq, eq_iff, Bool, ◌||◌, not, none, some, List,
  [], ◌∷◌, length, take, drop, contains, ◌≡◌, refl, ◌∙◌, ap, arith, map_id, length-keep, keep,
}
use wup_demo.Events.{TokenMapping}
use wup_demo.Orderbook.{u64_mod}
use wup_demo.Aggregator.{
  Supervisor, Sent, fill, is_subscribed, total_subscriptions, spawn_worker, spawn_workers, place,
  with_sent, subscribe, subscribe_with_mappings, store_mappings, spawn_worker_with_mappings,
}
use wup_demo.Aggregator.Names.{Numbers}
use wup_demo.Aggregator.Capacity.{Spawns, spawn_worker-Spawns}
use wup_demo.Aggregator.Placing.{names, names-fill, length-fill, fill_shrinks, get-fill}
use wup_demo.Aggregator.Spawning.{IsFresh, IsPlaced, spawn_workers-IsPlaced}

-- Leaving out what is there already leaves the same together with it.
names-keep :
    {A : Type 0} (id_of : A → String) (p : String → Bool) (x : String) (items : List A)
    → (p x || names id_of x (keep (λ i. not (p (id_of i))) items)) ≡ (p x || names id_of x items)
names-keep id_of p x [] = refl
names-keep id_of p x (i ∷ items) = ground (arith, eq_iff (id_of i) x, names-keep id_of p x items)

abbrev pub token_of : TokenMapping → String
token_of m = m.clob_token_id

module _ ⦃N : Numbers⦄ where
  -- A supervisor that can take `n` more identifiers: its workers may have one at least, and the
  -- counter of workers does not reach 2^64.
  abbrev pub HasRoom : ℕ → Supervisor → Type 0
  HasRoom n s = (1 ≤ s.max_subs_per_worker) × (s.worker_counter + n < u64_mod)

  module _ {A : Type 0} (id_of : A → String) (spawn : List A → Supervisor → Supervisor) where
    filled-IsPlaced :
        (accepts : String → Bool) (fuel : ℕ) (items : List A) (s : Supervisor)
        → Spawns id_of spawn
        → length items ≤ fuel
        → HasRoom (length items) s
        → IsFresh s
        → (t : Supervisor) × (sent : Sent) × (place id_of spawn accepts fuel items s
            ≡ some (t, sent))
          × IsPlaced (λ x. names id_of x items) (length items) s t
    unfolding place is_subscribed total_subscriptions
    filled-IsPlaced accepts fuel [] s e enough room fresh = (
      s,
      [],
      refl,
      record { subscribed = λ x. ground arith; total = omega arith; limit = refl; fresh = fresh },
    )
    filled-IsPlaced accepts fuel (y ∷ ys) s e enough room fresh =
        let items = y ∷ ys in
        let max = s.max_subs_per_worker in
        let f = fill id_of accepts max s.workers items in
        let u : Supervisor = record s { workers = f.workers } in
        let count = length-fill id_of accepts max s.workers items in
        let less = fill_shrinks id_of accepts max s.workers items in
        let more =
          spawn_workers-IsPlaced id_of spawn fuel f.remaining u e (omega (arith, less, enough))
            room.0 (omega (arith, less, room.1))
            (λ k l. get-fill id_of accepts max _ s.workers items (fresh k l)) in
        (
          more.0,
          f.sent,
          ap (with_sent f.sent) more.1,
          record {
            subscribed = λ x. more.2.subscribed x ∙ names-fill id_of x accepts max s.workers items;
            total = omega (arith, more.2.total, count);
            limit = more.2.limit;
            fresh = more.2.fresh;
          },
        )

  -- If every send to a worker returns, with success or with an error, then with fuel for every
  -- identifier subscribing has a result. In it an identifier is on the list of a worker exactly if it
  -- was before or was asked for, whatever channels were closed, and the number of subscriptions has
  -- grown by that of the identifiers that were new, counted with repetitions. The limit must be one
  -- at least, the counter of workers must not reach 2^64, and the identifiers of workers to come must
  -- be free, which they are again afterwards.
  pub subscribe-IsPlaced :
      (accepts : String → Bool) (fuel : ℕ) (ids : List String) (s : Supervisor)
      → length ids ≤ fuel
      → HasRoom (length ids) s
      → IsFresh s
      → (t : Supervisor) × (sent : Sent) × (subscribe accepts fuel ids s ≡ some (t, sent))
        × IsPlaced (contains ids) (length (keep (λ id. not (is_subscribed id s)) ids)) s t
  unfolding subscribe
  subscribe-IsPlaced accepts fuel ids s enough room fresh =
      let p : String → Bool = λ id. is_subscribed id s in
      let new_ids = keep (λ id. not (p id)) ids in
      let less = length-keep (λ id. not (p id)) ids in
      let r =
        filled-IsPlaced (λ id. id) spawn_worker accepts fuel new_ids s spawn_worker-Spawns
          (omega (arith, less, enough)) (room.0, omega (arith, less, room.1)) fresh in
      (
        r.0,
        r.1,
        r.2,
        record {
          subscribed = λ x.
              r.3.subscribed x
              ∙ (names-keep (λ id. id) p x ids ∙ ap (λ is. p x || contains is x) (map_id ids));
          total = r.3.total;
          limit = r.3.limit;
          fresh = r.3.fresh;
        },
      )

  -- The same for subscribing with mappings: an identifier is on the list of a worker exactly if it
  -- was before or a mapping has it.
  pub subscribe_with_mappings-IsPlaced :
      (accepts : String → Bool) (fuel : ℕ) (mappings : List TokenMapping) (s : Supervisor)
      → length mappings ≤ fuel
      → HasRoom (length mappings) s
      → IsFresh s
      → (t : Supervisor) × (sent : Sent) × (subscribe_with_mappings accepts fuel mappings s
          ≡ some (t, sent))
        × ((x : String) → is_subscribed x t ≡ (is_subscribed x s || names token_of x mappings))
        × IsFresh t
  unfolding subscribe_with_mappings spawn_worker_with_mappings is_subscribed
  subscribe_with_mappings-IsPlaced accepts fuel mappings s enough room fresh =
      let p : String → Bool = λ id. is_subscribed id s in
      let u : Supervisor = record s {
        token_mappings = store_mappings p mappings s.token_mappings;
      } in
      let less = length-keep (λ m. not (p (token_of m))) mappings in
      let r =
        filled-IsPlaced token_of spawn_worker_with_mappings accepts fuel
          (keep (λ m. not (p (token_of m))) mappings) u (λ items v. refl)
          (omega (arith, less, enough)) (room.0, omega (arith, less, room.1)) fresh in
      (r.0, r.1, r.2, λ x. r.3.subscribed x ∙ names-keep token_of p x mappings, r.3.fresh)

  -- With a limit of zero and something to place, the loop that starts workers never ends: no amount
  -- of fuel is enough.
  pub spawn_workers_endless :
      (fuel : ℕ) (id : String) (ids : List String) (s : Supervisor)
      → s.max_subs_per_worker ≡ 0
      → spawn_workers spawn_worker fuel (id ∷ ids) s ≡ none
  unfolding spawn_workers spawn_worker
  spawn_workers_endless zero id ids s z = refl
  spawn_workers_endless (suc fuel) id ids s z =
      let items = id ∷ ids in
      let stuck : min s.max_subs_per_worker (length items) ≡ 0 = omega (arith, z) in
      ap (λ n. spawn_workers spawn_worker fuel (drop n items) (spawn_worker (take n items) s)) stuck
      ∙ spawn_workers_endless fuel id ids (spawn_worker [] s) z
