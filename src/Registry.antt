-- ===== src/Registry.antt =====
-- `ClientState` and `ClientRegistry` of crates/gateway/src/client.rs: who is subscribed to what,
-- kept three times over. The channel of a client is left out; a client is shared by `Arc`, so that a
-- change of its subscriptions is one of the table.
pub mod Routing
pub mod Clients
pub mod Index
pub mod Consistency
pub mod Leaving
pub mod Reachable
pub mod Fanout
pub mod Stale
use wup_demo.Prelude.{
  ℤ, Eq, String, string_eq, Bool, true, false, ◌||◌, Option, none, some, List, [], ◌∷◌,
  if◌then◌else◌,
}
use wup_demo.DashMap.{DashMaps, DashMap, DashSet}
use wup_demo.HashMap
use wup_demo.HashMap.{HashMap}
use wup_demo.Text.{contains_char}

-- `Display` of the identifiers, which the `uuid` crate gives beside their equality.
pub record Display (A : Type 0) : Type 0 where
  pub to_string : A → String

-- The errors of crates/gateway/src/error.rs that these operations return.
pub data GatewayError : Type 0 where
  client_not_found invalid_subject : String → GatewayError
  channel_send http : GatewayError

pub data Result (A : Type 0) : Type 0 where
  ok : A → Result A
  err : GatewayError → Result A

unfoldable pub is_wildcard_pattern : String → Bool
is_wildcard_pattern pattern = contains_char b'*' pattern || contains_char b'>' pattern

pub record ClientState ⦃M : DashMaps⦄ : Type 0 where
  pub subscriptions : DashSet String
  pub connected_at : ℤ
  pub last_ping : ℤ

pub record ClientRegistry (ClientId : Type 0) ⦃M : DashMaps⦄ : Type 0 where
  pub clients : DashMap ClientId ClientState
  pub subscriptions : DashMap String (DashSet ClientId)
  pub exact_subscriptions : DashMap String (DashSet ClientId)
  -- The vector of patterns, in which `find` looks a pattern up and `push` adds one.
  pub wildcard_patterns : HashMap String (DashSet ClientId)

-- `ClientState::new` at the time `now`.
abbrev pub new_client : ⦃M : DashMaps⦄ → ℤ → ClientState
new_client ⦃M⦄ now = record { subscriptions = M.empty; connected_at = now; last_ping = now }

module _ ⦃M : DashMaps⦄ {ClientId : Type 0} ⦃i : Eq ClientId⦄ where
  abbrev pub new : (ClientRegistry ClientId)
  new = record {
    clients = M.empty;
    subscriptions = M.empty;
    exact_subscriptions = M.empty;
    wildcard_patterns = [];
  }

  unfoldable pub register :
      ClientId → ClientState → (ClientRegistry ClientId) → (ClientRegistry ClientId)
  register id client reg = record reg { clients = M.insert id client reg.clients }

  -- `entry(subject).or_default().insert(client_id)`
  abbrev pub with_client : ClientId → Option (DashSet ClientId) → DashSet ClientId
  with_client id none = M.insert id tt M.empty
  with_client id (some set) = M.insert id tt set

  -- `if let Some(client_set) = index.get(subject) { client_set.remove(client_id) }`
  abbrev pub drop_from :
      ClientId → String → DashMap String (DashSet ClientId) → DashMap String (DashSet ClientId)
  drop_from id subject index = elim (M.get subject index) [
    | none ↦ index
    | some set ↦ M.insert subject (M.remove id set) index
  ]

  abbrev pub drop_from_patterns :
      ClientId → String → HashMap String (DashSet ClientId) → HashMap String (DashSet ClientId)
  drop_from_patterns id subject patterns = elim (HashMap.get subject patterns) [
    | none ↦ patterns
    | some set ↦ HashMap.insert subject (M.remove id set) patterns
  ]

  abbrev pub change_client :
      ClientId
      → (DashSet String → DashSet String)
      → DashMap ClientId ClientState
      → DashMap ClientId ClientState
  change_client id change clients = elim (M.get id clients) [
    | none ↦ clients
    | some client ↦
        M.insert id (record client { subscriptions = change client.subscriptions }) clients
  ]

  -- One round of the loop of `subscribe`.
  unfoldable pub subscribe_one :
      ClientId → String → (ClientRegistry ClientId) → (ClientRegistry ClientId)
  subscribe_one id subject reg =
      let clients = change_client id (M.insert subject tt) reg.clients in
      let all =
        M.insert subject (with_client id (M.get subject reg.subscriptions)) reg.subscriptions in
      if is_wildcard_pattern subject
      then record reg {
        clients = clients;
        subscriptions = all;
        wildcard_patterns =
            HashMap.insert subject (with_client id (HashMap.get subject reg.wildcard_patterns))
              reg.wildcard_patterns;
      }
      else record reg {
        clients = clients;
        subscriptions = all;
        exact_subscriptions =
            M.insert subject (with_client id (M.get subject reg.exact_subscriptions))
              reg.exact_subscriptions;
      }

  -- One round of the loop of `unsubscribe`.
  unfoldable pub unsubscribe_one :
      ClientId → String → (ClientRegistry ClientId) → (ClientRegistry ClientId)
  unsubscribe_one id subject reg =
      let clients = change_client id (M.remove subject) reg.clients in
      let all = drop_from id subject reg.subscriptions in
      if is_wildcard_pattern subject
      then record reg {
        clients = clients;
        subscriptions = all;
        wildcard_patterns = drop_from_patterns id subject reg.wildcard_patterns;
      }
      else record reg {
        clients = clients;
        subscriptions = all;
        exact_subscriptions = drop_from id subject reg.exact_subscriptions;
      }

  abbrev pub drop_from_all :
      ClientId → HashMap String (DashSet ClientId) → HashMap String (DashSet ClientId)
  drop_from_all id [] = []
  drop_from_all id ((p, set) ∷ patterns) = (p, M.remove id set) ∷ drop_from_all id patterns

  -- One round of the loop of `unregister`: a wildcard takes the client out of every pattern.
  unfoldable pub unregister_one :
      ClientId → String → (ClientRegistry ClientId) → (ClientRegistry ClientId)
  unregister_one id subject reg =
      let all = drop_from id subject reg.subscriptions in
      if is_wildcard_pattern subject
      then record reg {
        subscriptions = all;
        wildcard_patterns = drop_from_all id reg.wildcard_patterns;
      }
      else record reg {
        subscriptions = all;
        exact_subscriptions = drop_from id subject reg.exact_subscriptions;
      }

  -- `for subject in subjects { step }`
  unfoldable pub for_each :
      (String → (ClientRegistry ClientId) → (ClientRegistry ClientId))
      → List String
      → (ClientRegistry ClientId)
      → (ClientRegistry ClientId)
  for_each step [] reg = reg
  for_each step (subject ∷ subjects) reg = for_each step subjects (step subject reg)

  abbrev pub known :
      ⦃d : Display ClientId⦄
      → ClientId
      → ((ClientRegistry ClientId) → (ClientRegistry ClientId))
      → (ClientRegistry ClientId)
      → Result (ClientRegistry ClientId)
  known ⦃d⦄ id change reg = elim (M.get id reg.clients) [
    | none ↦ err (client_not_found (d.to_string id))
    | some client ↦ ok (change reg)
  ]

  unfoldable pub subscribe :
      ⦃d : Display ClientId⦄
      → ClientId
      → List String
      → (ClientRegistry ClientId)
      → Result (ClientRegistry ClientId)
  subscribe ⦃d⦄ id subjects reg = known id (for_each (subscribe_one id) subjects) reg

  unfoldable pub unsubscribe :
      ⦃d : Display ClientId⦄
      → ClientId
      → List String
      → (ClientRegistry ClientId)
      → Result (ClientRegistry ClientId)
  unsubscribe ⦃d⦄ id subjects reg = known id (for_each (unsubscribe_one id) subjects) reg

  unfoldable pub unregister : ClientId → (ClientRegistry ClientId) → (ClientRegistry ClientId)
  unregister id reg = elim (M.get id reg.clients) [
    | none ↦ reg
    | some client ↦
        for_each (unregister_one id) (HashMap.keys (M.iter client.subscriptions))
          (record reg { clients = M.remove id reg.clients })
  ]
