-- ===== src/Aggregator/Reachable.antt =====
-- The supervisors that the calls of crates/aggregator/src/supervisor.rs can come to.
use wup_demo.Prelude.{
  ℕ, ◌*◌, ◌≤◌, String, Bool, some, List, [], ◌∷◌, length, ◌≡◌, refl, ◌∙◌, sym, subst, arith,
}
use wup_demo.Events.{TokenMapping}
use wup_demo.Aggregator.{
  Workers, Supervisor, Sent, new, subscribe, subscribe_with_mappings, sum_ids, total_subscriptions,
  worker_count,
}
use wup_demo.Aggregator.Departures.{unsubscribe, run}
use wup_demo.Aggregator.Names.{Numbers}
use wup_demo.Aggregator.Capacity.{
  IsWithin, SentIsWithin, subscribe-IsWithin, subscribe_with_mappings-IsWithin,
  withdraw_all-IsWithin,
}

module _ ⦃N : Numbers⦄ where
  -- One call that returns, whatever channels are open.
  pub data Step : Supervisor → Supervisor → Type 0 where
    subscribed :
        {s t : Supervisor} (accepts : String → Bool) (fuel : ℕ) (ids : List String) (sent : Sent)
        → subscribe accepts fuel ids s ≡ some (t, sent)
        → Step s t
    mapped :
        {s t : Supervisor} (accepts : String → Bool) (fuel : ℕ) (mappings : List TokenMapping)
        (sent : Sent)
        → subscribe_with_mappings accepts fuel mappings s ≡ some (t, sent)
        → Step s t
    unsubscribed :
        {s : Supervisor} (accepts : String → Bool) (ids : List String)
        → Step s (unsubscribe accepts ids s).0
    stopped : {s : Supervisor} (accepts : String → Bool) → Step s (run accepts s).0

  pub data Reachable (max : ℕ) : Supervisor → Type 0 where
    start : Reachable max (new max)
    next : {s t : Supervisor} → Reachable max s → Step s t → Reachable max t

  step-IsWithin :
      {s t : Supervisor}
      → Step s t
      → IsWithin s.max_subs_per_worker s.workers
      → (t.max_subs_per_worker ≡ s.max_subs_per_worker) × IsWithin s.max_subs_per_worker t.workers
  unfolding unsubscribe run
  step-IsWithin (subscribed accepts fuel ids sent e) within =
      subst (SentIsWithin _) e (subscribe-IsWithin accepts fuel ids _ within)
  step-IsWithin (mapped accepts fuel mappings sent e) within =
      subst (SentIsWithin _) e (subscribe_with_mappings-IsWithin accepts fuel mappings _ within)
  step-IsWithin (unsubscribed accepts ids) within =
      (refl, withdraw_all-IsWithin accepts ids _ _ _ within)
  step-IsWithin (stopped accepts) within = (refl, tt)

  kept_limit :
      (max : ℕ) (s : Supervisor)
      → Reachable max s
      → (s.max_subs_per_worker ≡ max) × IsWithin s.max_subs_per_worker s.workers
  kept_limit max _ start = (refl, tt)
  kept_limit max _ (next {s} {t} before step) =
      let h = kept_limit max s before in
      let after = step-IsWithin step h.1 in
      (after.0 ∙ h.0, subst (λ k. IsWithin k t.workers) (sym after.0) after.1)

sum_ids-IsWithin : (max : ℕ) (ws : Workers) → IsWithin max ws → sum_ids ws ≤ length ws * max
unfolding sum_ids
sum_ids-IsWithin max [] within = omega arith
sum_ids-IsWithin max ((w, h) ∷ ws) (l, ls) = grind (arith, l, sum_ids-IsWithin max ws ls)

module _ ⦃N : Numbers⦄ where
  -- Whatever calls a supervisor has had, and whatever channels of its workers were closed, no
  -- worker has more identifiers than the limit that it was made with, and all of them together have
  -- no more than the limit for each.
  pub reachable-IsWithin :
      (max : ℕ) (s : Supervisor)
      → Reachable max s
      → IsWithin max s.workers × (total_subscriptions s ≤ worker_count s * max)
  unfolding total_subscriptions worker_count
  reachable-IsWithin max s r =
      let h = kept_limit max s r in
      let within = subst (λ k. IsWithin k s.workers) h.0 h.1 in
      (within, sum_ids-IsWithin max s.workers within)
