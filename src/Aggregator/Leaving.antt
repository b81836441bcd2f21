-- ===== src/Aggregator/Leaving.antt =====
-- What unsubscribing leaves, and what a worker whose channel is closed keeps.
use wup_demo.Prelude.{
  ℕ, String, string_eq, eq_iff, eq_refl, Bool, true, false, ◌||◌, ◌&&◌, not, some, List, [], ◌∷◌,
  contains, ◌≡◌, refl, ◌∙◌, ap, arith, keep, keep-miss,
}
use wup_demo.HashMap.{HashMap}
use wup_demo.Events.{TokenMapping}
use wup_demo.Aggregator.{Workers, WorkerHandle, Supervisor, has_id, is_subscribed, place, subscribe}
use wup_demo.Aggregator.Departures.{withdraw, withdraw_some, withdraw_all, unsubscribe}
use wup_demo.Aggregator.Names.{Numbers}

contains-keep :
    (p : String → Bool) (x : String) (ids : List String)
    → contains (keep p ids) x ≡ (p x && contains ids x)
contains-keep p x [] = ground arith
contains-keep p x (id ∷ ids) = ground (arith, eq_iff id x, contains-keep p x ids)

-- The workers that keep an identifier which is withdrawn: those whose channel is closed.
unfoldable pub keeps_id : (String → Bool) → List String → String → Workers → Bool
keeps_id accepts ids x [] = false
keeps_id accepts ids x ((w, h) ∷ ws) =
    (contains h.subscribed_ids x && not (accepts w && contains ids x)) || keeps_id accepts ids x ws

contains-withdraw :
    (accepts : String → Bool) (ids : List String) (x w : String) (h : WorkerHandle)
    (m : HashMap String TokenMapping)
    → contains (withdraw accepts ids w h m).handle.subscribed_ids x
      ≡ (contains h.subscribed_ids x && not (accepts w && contains ids x))
unfolding withdraw
contains-withdraw accepts ids x w h m =
    go (accepts w) (keep (contains h.subscribed_ids) ids)
      (contains-keep (contains h.subscribed_ids) x ids)
  where
    go :
        (b : Bool) (gone : List String)
        → contains gone x ≡ (contains h.subscribed_ids x && contains ids x)
        → contains (withdraw_some w h m b gone).handle.subscribed_ids x
          ≡ (contains h.subscribed_ids x && not (b && contains ids x))
    go b [] e = ground arith
    go false (g ∷ gone) e = ground arith
    go true (g ∷ gone) e =
        contains-keep (λ id. not (contains (g ∷ gone) id)) x h.subscribed_ids ∙ ground (arith, e)

has_id-withdraw_all :
    (accepts : String → Bool) (ids : List String) (x : String) (ws : Workers)
    (m : HashMap String TokenMapping)
    → has_id x (withdraw_all accepts ids ws m).0 ≡ keeps_id accepts ids x ws
unfolding withdraw_all has_id keeps_id
has_id-withdraw_all accepts ids x [] m = refl
has_id-withdraw_all accepts ids x ((w, h) ∷ ws) m = ground (
  arith,
  contains-withdraw accepts ids x w h m,
  has_id-withdraw_all accepts ids x ws (withdraw accepts ids w h m).token_mappings,
)

-- After unsubscribing, an identifier is on the list of a worker exactly if a worker had it from
-- which it was not withdrawn: because it was not named, or because the worker's channel was closed.
pub is_subscribed-unsubscribe :
    (accepts : String → Bool) (ids : List String) (s : Supervisor) (x : String)
    → is_subscribed x (unsubscribe accepts ids s).0 ≡ keeps_id accepts ids x s.workers
unfolding is_subscribed unsubscribe
is_subscribed-unsubscribe accepts ids s x =
    has_id-withdraw_all accepts ids x s.workers s.token_mappings

module _ ⦃N : Numbers⦄ where
  -- Identifiers that all are on the list of some worker cannot be subscribed again: nothing is
  -- sent and nothing changes, also where the channel of that worker is closed and it receives
  -- nothing.
  pub subscribe_again :
      (accepts : String → Bool) (fuel : ℕ) (ids : List String) (s : Supervisor)
      → ((x : String) → contains ids x ≡ true → is_subscribed x s ≡ true)
      → subscribe accepts fuel ids s ≡ some (s, [])
  unfolding subscribe place
  subscribe_again accepts fuel ids s all = rw (keep-none ids all)
    where
      keep-none :
          (xs : List String)
          → ((x : String) → contains xs x ≡ true → is_subscribed x s ≡ true)
          → keep (λ id. not (is_subscribed id s)) xs ≡ []
      keep-none [] h = refl
      keep-none (y ∷ ys) h =
          keep-miss _ y ys (ap not (h y (ground (arith, eq_refl y))))
          ∙ keep-none ys (λ x e. h x (ground (arith, e)))
