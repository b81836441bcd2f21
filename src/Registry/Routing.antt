-- ===== src/Registry/Routing.antt =====
-- The queries of `ClientRegistry` in crates/gateway/src/client.rs: the clients that a subject
-- concerns.
use wup_demo.Prelude.{
  Eq, String, string_eq, Bool, true, false, Option, none, some, List, [], ◌∷◌, if◌then◌else◌,
}
use wup_demo.DashMap.{DashMaps, DashSet}
use wup_demo.HashMap
use wup_demo.HashMap.{HashMap}
use wup_demo.Text.{split}
use wup_demo.Subscription.{matches_subject}
use wup_demo.Registry.{ClientRegistry, ClientState}

module _ {ClientId : Type 0} ⦃i : Eq ClientId⦄ where
  -- `matched_clients.insert(id)` into a `HashSet`, as a list without repetition.
  abbrev pub has_id : ClientId → List ClientId → Bool
  has_id id [] = false
  has_id id (j ∷ ids) = let rest = has_id id ids in if i.beq j id then true else rest

  abbrev pub insert_id : ClientId → List ClientId → List ClientId
  insert_id id ids = if has_id id ids then ids else id ∷ ids

  abbrev pub insert_ids : List ClientId → List ClientId → List ClientId
  insert_ids [] ids = ids
  insert_ids (id ∷ more) ids = insert_ids more (insert_id id ids)

module _ ⦃M : DashMaps⦄ {ClientId : Type 0} ⦃i : Eq ClientId⦄ where
  abbrev pub ids_in : Option (DashSet ClientId) → List ClientId
  ids_in none = []
  ids_in (some set) = HashMap.keys (M.iter set)

  -- Phase 2: every pattern that matches adds its clients.
  unfoldable pub scan_patterns :
      List String → HashMap String (DashSet ClientId) → List ClientId → List ClientId
  scan_patterns subject_parts [] ids = ids
  scan_patterns subject_parts ((pattern, set) ∷ patterns) ids =
      scan_patterns subject_parts patterns (
        if matches_subject pattern subject_parts
        then insert_ids (HashMap.keys (M.iter set)) ids
        else ids)

  -- The identifiers that `get_matching_subscribers` collects.
  unfoldable pub matched_clients : String → (ClientRegistry ClientId) → List ClientId
  matched_clients subject reg =
      scan_patterns (split subject) reg.wildcard_patterns
        (insert_ids (ids_in (M.get subject reg.exact_subscriptions)) [])

  -- `filter_map(|id| clients.get(id))`
  abbrev pub states_of : List ClientId → (ClientRegistry ClientId) → List (ClientId × ClientState)
  states_of [] reg = []
  states_of (id ∷ ids) reg = elim (M.get id reg.clients) [
    | none ↦ states_of ids reg
    | some client ↦ (id, client) ∷ states_of ids reg
  ]

  unfoldable pub get_matching_subscribers :
      String → (ClientRegistry ClientId) → List (ClientId × ClientState)
  get_matching_subscribers subject reg = states_of (matched_clients subject reg) reg

  unfoldable pub get_subscribers_exact :
      String → (ClientRegistry ClientId) → List (ClientId × ClientState)
  get_subscribers_exact subject reg = states_of (ids_in (M.get subject reg.subscriptions)) reg
