-- ===== src/Aggregator/Spawning.antt =====
-- Subscribing ends, and then everything that was asked for is on the list of some worker.
use wup_demo.Prelude.{
  ℕ, zero, suc, ◌+◌, ◌-◌, ◌%◌, ◌≤◌, ◌<◌, min, String, string_eq, str_eq, eq_iff, Bool, false, ◌||◌,
  none, some, List, [], ◌∷◌, map, length, take, drop, contains, ◌≡◌, refl, ◌∙◌, sym, ap, subst,
  arith, length-map, length-take, length-drop, Bool-cases, inl, inr,
}
use wup_demo.HashMap
use wup_demo.HashMap.{HashMap}
use wup_demo.HashMap.Laws.{get-insert}
use wup_demo.Orderbook.{u64_mod}
use wup_demo.Aggregator.{
  WorkerHandle, Supervisor, is_subscribed, total_subscriptions, spawn_worker, spawn_workers,
}
use wup_demo.Aggregator.Names.{Numbers, worker_id, worker_id_injective}
use wup_demo.Aggregator.Capacity.{Spawns}
use wup_demo.Aggregator.Placing.{names, names-take-drop, has_id-insert, sum_ids-insert}

module _ ⦃N : Numbers⦄ where
  -- The identifiers of workers to come are free.
  abbrev pub IsFresh : Supervisor → Type 0
  IsFresh s = (k : ℕ) → s.worker_counter < k → HashMap.get (worker_id k) s.workers ≡ none

  other_id : (m n : ℕ) → m < n → str_eq (worker_id m) (worker_id n) ≡ false
  other_id m n l = elim (Bool-cases (str_eq (worker_id m) (worker_id n))) [
    | inl e ↦ absurd (omega (arith, l, worker_id_injective m n ((eq_iff _ _).0 e)))
    | inr e ↦ e
  ]

  -- What holds of `t` if `n` identifiers, those that `asked` tells, were placed in `s`.
  pub record IsPlaced (asked : String → Bool) (n : ℕ) (s t : Supervisor) : Type 0 where
    pub subscribed : (x : String) → is_subscribed x t ≡ (is_subscribed x s || asked x)
    pub total : total_subscriptions t ≡ total_subscriptions s + n
    pub limit : t.max_subs_per_worker ≡ s.max_subs_per_worker
    pub fresh : IsFresh t

  spawn_worker-IsPlaced :
      (ids : List String) (s : Supervisor)
      → s.worker_counter + 1 < u64_mod
      → IsFresh s
      → IsPlaced (contains ids) (length ids) s (spawn_worker ids s)
        × ((spawn_worker ids s).worker_counter ≡ s.worker_counter + 1)
  unfolding spawn_worker is_subscribed total_subscriptions
  spawn_worker-IsPlaced ids s l fresh =
      let c = (s.worker_counter + 1) % u64_mod in
      let counted : c ≡ s.worker_counter + 1 = omega arith in
      let free = fresh c (omega (arith, counted)) in
      let h : WorkerHandle = record { subscribed_ids = ids } in
      (
        record {
          subscribed = λ x. has_id-insert x (worker_id c) h s.workers free;
          total = sum_ids-insert (worker_id c) h s.workers free;
          limit = refl;
          fresh = λ k l.
              get-insert (worker_id c) (worker_id k) h s.workers
              ∙ rw (other_id c k l) (fresh k (omega (arith, counted, l)));
        },
        counted,
      )

  pub IsPlaced-trans :
      (p q r : String → Bool) (m n k : ℕ) (s u t : Supervisor)
      → ((x : String) → (p x || q x) ≡ r x)
      → m + n ≡ k
      → IsPlaced p m s u
      → IsPlaced q n u t
      → IsPlaced r k s t
  IsPlaced-trans p q r m n k s u t both sum a b = record {
    subscribed = λ x. b.subscribed x ∙ ground (arith, a.subscribed x, both x);
    total = omega (arith, a.total, b.total, sum);
    limit = b.limit ∙ a.limit;
    fresh = b.fresh;
  }

  -- The loop ends, and all items are placed.
  pub spawn_workers-IsPlaced :
      {A : Type 0} (id_of : A → String) (spawn : List A → Supervisor → Supervisor) (fuel : ℕ)
      (items : List A) (s : Supervisor)
      → Spawns id_of spawn
      → length items ≤ fuel
      → 1 ≤ s.max_subs_per_worker
      → s.worker_counter + length items < u64_mod
      → IsFresh s
      → (t : Supervisor) × (spawn_workers spawn fuel items s ≡ some t)
        × IsPlaced (λ x. names id_of x items) (length items) s t
  unfolding spawn_workers
  spawn_workers-IsPlaced id_of spawn fuel [] s e enough room l fresh = (
    s,
    refl,
    record { subscribed = λ x. ground arith; total = omega arith; limit = refl; fresh = fresh },
  )
  spawn_workers-IsPlaced id_of spawn zero (x ∷ xs) s e enough room l fresh =
      absurd (omega (arith, enough))
  spawn_workers-IsPlaced id_of spawn (suc fuel) (x ∷ xs) s e enough room l fresh =
      let n = min s.max_subs_per_worker (length (x ∷ xs)) in
      let chunk = take n (x ∷ xs) in
      let rest = drop n (x ∷ xs) in
      let ids = map id_of chunk in
      let u = spawn_worker ids s in
      let one = spawn_worker-IsPlaced ids s (omega (arith, l)) fresh in
      let left : length rest ≡ length (x ∷ xs) - n = length-drop n (x ∷ xs) in
      let more =
        spawn_workers-IsPlaced id_of spawn fuel rest u e (omega (arith, left, enough, room))
          (subst (λ k. 1 ≤ k) (sym one.0.limit) room) (omega (arith, one.1, left, l, room))
          one.0.fresh in
      (
        more.0,
        ap (spawn_workers spawn fuel rest) (e chunk s) ∙ more.1,
        IsPlaced-trans _ _ _ _ _ _ s u more.0 (λ y. names-take-drop id_of y n (x ∷ xs))
            (rw (length-map id_of chunk) (omega (arith, left, length-take n (x ∷ xs)))) one.0
            more.2,
      )
