-- ===== src/Registry/Clients.antt =====
-- The queries of `ClientState` and the counts of `ClientRegistry` in crates/gateway/src/client.rs.
use wup_demo.Prelude.{
  ℕ, ℤ, Eq, String, string_eq, Bool, true, false, none, some, List, [], ◌∷◌, length, contains, not,
  ◌&&◌, ◌||◌, ◌≡◌, refl, ◌∙◌, arith,
}
use wup_demo.DashMap.{DashMaps, DashSet}
use wup_demo.HashMap
use wup_demo.Registry.Index.{has, has-insert, has-remove}
use wup_demo.Registry.{ClientState, ClientRegistry}

module _ ⦃M : DashMaps⦄ where
  -- The loops of `add_subscriptions` and `remove_subscriptions`.
  unfoldable pub insert_all : List String → DashSet String → DashSet String
  insert_all [] set = set
  insert_all (s ∷ ss) set = insert_all ss (M.insert s tt set)

  unfoldable pub remove_all : List String → DashSet String → DashSet String
  remove_all [] set = set
  remove_all (s ∷ ss) set = remove_all ss (M.remove s set)

  unfoldable pub add_subscriptions : List String → ClientState → ClientState
  add_subscriptions subjects client = record client {
    subscriptions = insert_all subjects client.subscriptions;
  }

  unfoldable pub remove_subscriptions : List String → ClientState → ClientState
  remove_subscriptions subjects client = record client {
    subscriptions = remove_all subjects client.subscriptions;
  }

  unfoldable pub is_subscribed : String → ClientState → Bool
  is_subscribed subject client = elim (M.get subject client.subscriptions) [
    | none ↦ false
    | some u ↦ true
  ]

  unfoldable pub get_subscriptions : ClientState → List String
  get_subscriptions client = HashMap.keys (M.iter client.subscriptions)

  unfoldable pub last_ping_time : ClientState → ℤ
  last_ping_time client = client.last_ping

  module _ {ClientId : Type 0} ⦃i : Eq ClientId⦄ where
    unfoldable pub client_count : ClientRegistry ClientId → ℕ
    client_count reg = length (M.iter reg.clients)

    unfoldable pub subscription_count : ClientRegistry ClientId → ℕ
    subscription_count reg = length (M.iter reg.subscriptions)

module _ ⦃M : DashMaps⦄ where
  has-insert_all :
      (subjects : List String) (s : String) (set : DashSet String)
      → has s (insert_all subjects set) ≡ (contains subjects s || has s set)
  unfolding insert_all
  has-insert_all [] s set = refl
  has-insert_all (q ∷ qs) s set =
      has-insert_all qs s (M.insert q tt set) ∙ ground (arith, has-insert q s set)

  has-remove_all :
      (subjects : List String) (s : String) (set : DashSet String)
      → has s (remove_all subjects set) ≡ (not (contains subjects s) && has s set)
  unfolding remove_all
  has-remove_all [] s set = ground arith
  has-remove_all (q ∷ qs) s set =
      has-remove_all qs s (M.remove q set) ∙ ground (arith, has-remove q s set)

  -- After subjects are added to a client it is subscribed to them and to what it was before; after
  -- they are removed it is subscribed to the rest.
  pub is_subscribed_after :
      (subjects : List String) (s : String) (client : ClientState)
      → (is_subscribed s (add_subscriptions subjects client)
          ≡ (contains subjects s || is_subscribed s client))
        × (is_subscribed s (remove_subscriptions subjects client)
            ≡ (not (contains subjects s) && is_subscribed s client))
  unfolding is_subscribed add_subscriptions remove_subscriptions
  is_subscribed_after subjects s client = (
    has-insert_all subjects s client.subscriptions,
    has-remove_all subjects s client.subscriptions,
  )
