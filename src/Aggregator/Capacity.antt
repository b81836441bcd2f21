-- ===== src/Aggregator/Capacity.antt =====
-- No worker is given more identifiers than it may have.
use wup_demo.Prelude.{
  ℕ, zero, suc, ◌≤◌, min, String, string_eq, Bool, true, false, Option, none, some, List, [], ◌∷◌,
  map, length, take, drop, keep, ◌≡◌, refl, sym, ap, subst, arith, length-append, length-map,
  length-take, length-keep, map_id, contains, inl, inr,
}
use wup_demo.HashMap
use wup_demo.HashMap.{HashMap}
use wup_demo.Events.{TokenMapping}
use wup_demo.Aggregator.{
  WorkerHandle, Workers, Supervisor, Sent, offer, fill, spawn_worker, spawn_worker_with_mappings,
  spawn_workers, place, subscribe, subscribe_with_mappings, with_sent,
}
use wup_demo.Aggregator.Departures.{withdraw, withdraw_some, withdraw_all}
use wup_demo.Aggregator.Offers.{offer-cases}
use wup_demo.Aggregator.Names.{Numbers}

abbrev pub IsWithin : ℕ → Workers → Type 0
IsWithin max [] = Unit
IsWithin max ((w, h) ∷ ws) = (length h.subscribed_ids ≤ max) × IsWithin max ws

module _ {A : Type 0} (id_of : A → String) (accepts : String → Bool) (max : ℕ) where
  length-offer :
      (w : String) (h : WorkerHandle) (items : List A)
      → length h.subscribed_ids ≤ max
      → length (offer id_of accepts max w h items).handle.subscribed_ids ≤ max
  length-offer w h items l = elim (offer-cases id_of accepts max w h items) [
    | inl e ↦ rw e l
    | inr (inl (n, room, a, e)) ↦
        rw
          (
            e,
            length-append h.subscribed_ids (map id_of (take n items)),
            length-map id_of (take n items),
            length-take n items,
          )
          (omega (arith, room))
    | inr (inr (n, a, e)) ↦ rw e l
  ]

  fill-IsWithin :
      (ws : Workers) (items : List A)
      → IsWithin max ws
      → IsWithin max (fill id_of accepts max ws items).workers
  unfolding fill
  fill-IsWithin [] items l = tt
  fill-IsWithin ((w, h) ∷ ws) items (l, ls) = (length-offer w h items l, fill-IsWithin ws _ ls)

insert-IsWithin :
    (max : ℕ) (w : String) (h : WorkerHandle) (ws : Workers)
    → length h.subscribed_ids ≤ max
    → IsWithin max ws
    → IsWithin max (HashMap.insert w h ws)
unfolding HashMap.insert
insert-IsWithin max w h [] l ls = (l, tt)
insert-IsWithin max w h ((v, g) ∷ ws) l ls = ground (arith, insert-IsWithin max w h ws l)

abbrev pub AfterIsWithin : ℕ → Option Supervisor → Type 0
AfterIsWithin max none = Unit
AfterIsWithin max (some t) = (t.max_subs_per_worker ≡ max) × IsWithin max t.workers

abbrev pub SentIsWithin : ℕ → Option (Supervisor × Sent) → Type 0
SentIsWithin max none = Unit
SentIsWithin max (some (t, sent)) = (t.max_subs_per_worker ≡ max) × IsWithin max t.workers

with_sent-IsWithin :
    (max : ℕ) (sent : Sent) (o : Option Supervisor)
    → AfterIsWithin max o
    → SentIsWithin max (with_sent sent o)
with_sent-IsWithin max sent none within = tt
with_sent-IsWithin max sent (some t) within = within

module _ ⦃N : Numbers⦄ where
  spawn_worker-IsWithin :
      (ids : List String) (s : Supervisor)
      → length ids ≤ s.max_subs_per_worker
      → IsWithin s.max_subs_per_worker s.workers
      → IsWithin s.max_subs_per_worker (spawn_worker ids s).workers
  unfolding spawn_worker
  spawn_worker-IsWithin ids s = insert-IsWithin s.max_subs_per_worker _ _ s.workers

module _ ⦃N : Numbers⦄ {A : Type 0} (id_of : A → String) where
  -- A way to start workers that gives them the identifiers of the items.
  abbrev pub Spawns : (List A → Supervisor → Supervisor) → Type 0
  Spawns spawn =
      (items : List A) (s : Supervisor) → spawn items s ≡ spawn_worker (map id_of items) s

  spawn_workers-IsWithin :
      (spawn : List A → Supervisor → Supervisor) (fuel : ℕ) (items : List A) (s : Supervisor)
      → Spawns spawn
      → IsWithin s.max_subs_per_worker s.workers
      → AfterIsWithin s.max_subs_per_worker (spawn_workers spawn fuel items s)
  unfolding spawn_workers spawn_worker
  spawn_workers-IsWithin spawn fuel [] s e within = (refl, within)
  spawn_workers-IsWithin spawn zero (x ∷ xs) s e within = tt
  spawn_workers-IsWithin spawn (suc fuel) (x ∷ xs) s e within =
      let n = min s.max_subs_per_worker (length (x ∷ xs)) in
      let chunk = take n (x ∷ xs) in
      subst
        (λ u. AfterIsWithin s.max_subs_per_worker (spawn_workers spawn fuel (drop n (x ∷ xs)) u))
        (sym (e chunk s))
        (spawn_workers-IsWithin spawn fuel (drop n (x ∷ xs)) (spawn_worker (map id_of chunk) s) e (
          spawn_worker-IsWithin (map id_of chunk) s
            (rw (length-map id_of chunk, length-take n (x ∷ xs)) (omega arith)) within))

  place-IsWithin :
      (spawn : List A → Supervisor → Supervisor) (accepts : String → Bool) (fuel : ℕ)
      (items : List A) (s : Supervisor)
      → Spawns spawn
      → IsWithin s.max_subs_per_worker s.workers
      → SentIsWithin s.max_subs_per_worker (place id_of spawn accepts fuel items s)
  unfolding place
  place-IsWithin spawn accepts fuel [] s e within = (refl, within)
  place-IsWithin spawn accepts fuel (x ∷ xs) s e within = with_sent-IsWithin _ _ _ (
      spawn_workers-IsWithin spawn fuel _ _ e
        (fill-IsWithin id_of accepts s.max_subs_per_worker s.workers (x ∷ xs) within))

module _ ⦃N : Numbers⦄ where
  pub spawn_worker-Spawns : Spawns (λ id. id) spawn_worker
  spawn_worker-Spawns ids s = ap (λ xs. spawn_worker xs s) (sym (map_id ids))

  pub subscribe-IsWithin :
      (accepts : String → Bool) (fuel : ℕ) (ids : List String) (s : Supervisor)
      → IsWithin s.max_subs_per_worker s.workers
      → SentIsWithin s.max_subs_per_worker (subscribe accepts fuel ids s)
  unfolding subscribe
  subscribe-IsWithin accepts fuel ids s =
      place-IsWithin (λ id. id) spawn_worker accepts fuel _ s spawn_worker-Spawns

  pub subscribe_with_mappings-IsWithin :
      (accepts : String → Bool) (fuel : ℕ) (mappings : List TokenMapping) (s : Supervisor)
      → IsWithin s.max_subs_per_worker s.workers
      → SentIsWithin s.max_subs_per_worker (subscribe_with_mappings accepts fuel mappings s)
  unfolding subscribe_with_mappings spawn_worker_with_mappings
  subscribe_with_mappings-IsWithin accepts fuel mappings s =
      place-IsWithin (λ (m : TokenMapping). m.clob_token_id) spawn_worker_with_mappings accepts fuel
        _ _ (λ items u. refl)

length-withdraw :
    (accepts : String → Bool) (ids : List String) (w : String) (h : WorkerHandle)
    (m : HashMap String TokenMapping)
    → length (withdraw accepts ids w h m).handle.subscribed_ids ≤ length h.subscribed_ids
unfolding withdraw
length-withdraw accepts ids w h m = go (accepts w) (keep (contains h.subscribed_ids) ids)
  where
    go :
        (accepted : Bool) (to_remove : List String)
        → length (withdraw_some w h m accepted to_remove).handle.subscribed_ids
          ≤ length h.subscribed_ids
    go accepted [] = omega arith
    go false (id ∷ ids) = omega arith
    go true (id ∷ ids) = length-keep _ h.subscribed_ids

pub withdraw_all-IsWithin :
    (accepts : String → Bool) (ids : List String) (max : ℕ) (ws : Workers)
    (m : HashMap String TokenMapping)
    → IsWithin max ws
    → IsWithin max (withdraw_all accepts ids ws m).0
unfolding withdraw_all
withdraw_all-IsWithin accepts ids max [] m within = tt
withdraw_all-IsWithin accepts ids max ((w, h) ∷ ws) m (l, ls) = (
  omega (arith, length-withdraw accepts ids w h m),
  withdraw_all-IsWithin accepts ids max ws _ ls,
)
