-- ===== src/Events/Redis.antt =====
-- `SharedRedisClient` of crates/external_services/src/redis_client.rs, on the events and markets and
-- on the two mappings of identifiers. Redis is a parameter, as is the JSON of what is stored in it.
pub mod Laws
use Prim.Native.Char.{code}
use Prim.Native.String.{◌++◌}
use wup_demo.Prelude.{
  ℕ, String, str_eq, Bool, true, false, Option, none, some, List, [], ◌∷◌, map, find, ◌≡◌, ◌==◌,
  if◌then◌else◌,
}
use wup_demo.Events.{MarketData, EventData, TokenMapping}

-- `str::strip_prefix`
unfoldable pub strip_prefix : String → String → Option String
strip_prefix String.[] s = some s
strip_prefix (String.◌∷◌ c p) String.[] = none
strip_prefix (String.◌∷◌ c p) (String.◌∷◌ d s) =
    let rest = strip_prefix p s in if code c == code d then rest else none

pub record ConditionMapping : Type 0 where
  pub condition_id : String
  pub hashed_market_id : String
  pub clob_token_ids : List String

pub record MarketSlugMapping : Type 0 where
  pub market_slug : String
  pub hashed_market_id : String
  pub condition_id : String
  pub market_id : String

-- A connection: each command may fail, with `none`, and the server answers from its store.
pub record Redis : Type 1 where
  pub Store : Type 0
  pub set : String → String → Store → Option Store
  pub get : String → Store → Option (Option String)
  pub exists : String → Store → Option Bool
  pub keys : String → Store → Option (List String)
  -- What has been set is there.
  pub get-set :
      (key value : String) (store after : Store)
      → set key value store ≡ some after
      → (answer : Option String) → get key after ≡ some answer
      → answer ≡ some value

-- `serde_json` at one type.
pub record Stored (A : Type 0) : Type 0 where
  pub to_string : A → Option String
  pub from_str : String → Option A

-- An answer of the client: an error, or what was found.
pub data Answer (A : Type 0) : Type 0 where
  failed : Answer A
  found : A → Answer A

abbrev pub event_key : String → String → String
event_key platform event_slug = "event:" ++ (platform ++ (":" ++ event_slug))

abbrev pub condition_key : String → String → String
condition_key platform condition_id = "condition:" ++ (platform ++ (":" ++ condition_id))

abbrev pub market_key : String → String → String
market_key platform market_slug = "market:" ++ (platform ++ (":" ++ market_slug))

-- `strip_prefix(prefix).unwrap_or(&k)`
abbrev pub without_prefix : String → Option String → String
without_prefix k none = k
without_prefix k (some s) = s

-- The slug in a key, or nothing.
unfoldable pub slug_of : String → String → String
slug_of platform key = without_prefix "" (strip_prefix (event_key platform "") key)

unfoldable pub market_by_id : String → EventData → Option MarketData
market_by_id market_id event = find (λ (m : MarketData). str_eq m.id market_id) event.markets

unfoldable pub market_by_token_id : String → EventData → Option MarketData
market_by_token_id token_id event =
    elim (find (λ (t : TokenMapping). str_eq t.clob_token_id token_id) event.tokens) [
      | none ↦ none
      | some mapping ↦ find (λ (m : MarketData). str_eq m.id mapping.market_id) event.markets
    ]

module _ ⦃R : Redis⦄ where
  abbrev set_json : String → Option String → R.Store → Option R.Store
  set_json key none store = none
  set_json key (some json) store = R.set key json store

module _ ⦃R : Redis⦄ {A : Type 0} ⦃J : Stored A⦄ where
  -- `set(key, to_string(value)?)`, which every `store_..` does at its key.
  unfoldable pub store_value : String → A → R.Store → Option R.Store
  store_value key a store = set_json key (J.to_string a) store

  abbrev pub decoded : Option A → Answer (Option A)
  decoded none = Answer.failed
  decoded (some a) = Answer.found (some a)

  abbrev pub read_json : Option (Option String) → Answer (Option A)
  read_json none = Answer.failed
  read_json (some none) = Answer.found none
  read_json (some (some json)) = decoded (J.from_str json)

  -- `get(key)` and `from_str`, which every `get_..` does at its key.
  unfoldable pub get_value : String → R.Store → Answer (Option A)
  get_value key store = read_json (R.get key store)

module _ ⦃R : Redis⦄ ⦃J : Stored EventData⦄ where
  unfoldable pub store_event : String → String → EventData → R.Store → Option R.Store
  store_event platform event_slug data_ store =
      store_value (event_key platform event_slug) data_ store

  unfoldable pub get_event : String → String → R.Store → Answer (Option EventData)
  get_event platform event_slug store = get_value (event_key platform event_slug) store

  abbrev tokens_of : Answer (Option EventData) → Answer (List TokenMapping)
  tokens_of Answer.failed = Answer.failed
  tokens_of (Answer.found none) = Answer.found []
  tokens_of (Answer.found (some e)) = Answer.found e.tokens

  unfoldable pub get_token_mappings : String → String → R.Store → Answer (List TokenMapping)
  get_token_mappings platform event_slug store = tokens_of (get_event platform event_slug store)

module _ ⦃R : Redis⦄ where
  abbrev or_failed : {A : Type 0} → Option A → Answer A
  or_failed none = Answer.failed
  or_failed (some a) = Answer.found a

  unfoldable pub event_exists : String → String → R.Store → Answer Bool
  event_exists platform event_slug store =
      or_failed (R.exists (event_key platform event_slug) store)

  unfoldable pub list_events : R.Store → Answer (List String)
  list_events store = elim (R.keys ("event:" ++ "*") store) [
    | none ↦ Answer.failed
    | some keys ↦ Answer.found (map (λ k. without_prefix k (strip_prefix "event:" k)) keys)
  ]

  abbrev or_none : {A : Type 0} → Option (List A) → List A
  or_none none = []
  or_none (some xs) = xs

  -- The keys of a platform's events; an error finds none.
  unfoldable pub event_keys : String → R.Store → List String
  event_keys platform store = or_none (R.keys (event_key platform "*") store)

module _ ⦃R : Redis⦄ ⦃J : Stored EventData⦄ where
  abbrev readable : Option (Option String) → Option EventData
  readable none = none
  readable (some none) = none
  readable (some (some json)) = J.from_str json

  -- The event under a key; an error of any kind passes the key over.
  unfoldable pub event_at : String → R.Store → Option EventData
  event_at key store = readable (R.get key store)

  abbrev with_slug : String → Option MarketData → Option (String × MarketData)
  with_slug slug none = none
  with_slug slug (some market) = some (slug, market)

  -- The loop over the keys, with the search in one event as a parameter.
  abbrev search_event : (EventData → Option MarketData) → Option EventData → Option MarketData
  search_event search none = none
  search_event search (some event) = search event

  unfoldable pub search_keys :
      (EventData → Option MarketData)
      → String
      → R.Store
      → List String
      → Option (String × MarketData)
  search_keys search platform store [] = none
  search_keys search platform store (key ∷ keys) =
      let rest = search_keys search platform store keys in
      elim (search_event search (event_at key store)) [
        | none ↦ rest
        | some market ↦ some (slug_of platform key, market)
      ]

  unfoldable pub find_market_by_id : String → String → R.Store → Option (String × MarketData)
  find_market_by_id platform market_id store =
      search_keys (market_by_id market_id) platform store (event_keys platform store)

  unfoldable pub find_market_by_token_id : String → String → R.Store → Option (String × MarketData)
  find_market_by_token_id platform token_id store =
      search_keys (market_by_token_id token_id) platform store (event_keys platform store)

module _ ⦃R : Redis⦄ ⦃J : Stored ConditionMapping⦄ where
  unfoldable pub store_condition_mapping :
      String → String → ConditionMapping → R.Store → Option R.Store
  store_condition_mapping platform condition_id mapping store =
      store_value (condition_key platform condition_id) mapping store

  unfoldable pub get_condition_mapping :
      String → String → R.Store → Answer (Option ConditionMapping)
  get_condition_mapping platform condition_id store =
      get_value (condition_key platform condition_id) store

module _ ⦃R : Redis⦄ ⦃J : Stored MarketSlugMapping⦄ where
  unfoldable pub store_market_slug_mapping :
      String → String → MarketSlugMapping → R.Store → Option R.Store
  store_market_slug_mapping platform market_slug mapping store =
      store_value (market_key platform market_slug) mapping store

  unfoldable pub get_market_by_slug : String → String → R.Store → Answer (Option MarketSlugMapping)
  get_market_by_slug platform market_slug store = get_value (market_key platform market_slug) store
