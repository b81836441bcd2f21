-- ===== src/Example/Events.antt =====
-- The theorem on the search of a market, at a store with one event.
use wup_demo.Prelude.{
  some_injective, String, string_eq, str_eq, eq_iff, pos, true, false, Option, none, some, [], ◌∷◌,
  ◌≡◌, refl, ◌∙◌, sym, ap, arith, contains, find, eq_refl,
}
use wup_demo.HashMap
use wup_demo.HashMap.{HashMap}
use wup_demo.HashMap.Laws.{get-insert}
use wup_demo.Events.{MarketData, EventData, TokenMapping}
use wup_demo.Events.Redis.{
  Redis, Stored, event_key, event_keys, event_at, find_market_by_token_id, search_keys,
  market_by_token_id, slug_of, strip_prefix,
}
use wup_demo.Events.Redis.Laws.{find_market_by_token_id-some}

abbrev market : MarketData
market = record {
  id = "7";
  question = some "?";
  slug = none;
  outcomes = none;
  outcome_prices = none;
  best_bid = none;
  best_ask = none;
  volume = none;
  liquidity = none;
  active = true;
  closed = false;
  clob_token_ids = "token" ∷ [];
}

abbrev event : EventData
event = record {
  event_id = "1";
  slug = "slug";
  title = "title";
  description = none;
  active = true;
  closed = false;
  markets = market ∷ [];
  market_count = 1;
  tokens = record { clob_token_id = "token"; market_id = "7"; event_slug = "slug" } ∷ [];
  fetched_at = pos 3;
}

abbrev key : String
key = event_key "polymarket" "slug"

pub set_get :
    (k v : String) (store after : HashMap String String)
    → some (HashMap.insert k v store) ≡ some after
    → (answer : Option String) → some (HashMap.get k after) ≡ some answer
    → answer ≡ some v
set_get k v store after e answer f =
    sym (some_injective f)
    ∙ ap (HashMap.get k) (sym (some_injective e))
    ∙ get-insert k k v store
    ∙ rw (eq_refl k)

instance abbrev pub redis : Redis
redis = record {
  Store = HashMap String String;
  set = λ k v store. some (HashMap.insert k v store);
  get = λ k store. some (HashMap.get k store);
  exists = λ k store. some (HashMap.contains_key k store);
  keys = λ pattern store. some (HashMap.keys store);
  get-set = set_get;
}

instance abbrev stored : Stored EventData
stored = record { to_string = λ e. none; from_str = λ s. some event }

abbrev store : HashMap String String
store = (key, "{..}") ∷ []

own_keys :
    (k : String)
    → contains (event_keys "polymarket" store) k ≡ true
    → (s : String) × (k ≡ event_key "polymarket" s)
unfolding event_keys
own_keys k e = ("slug", sym ((eq_iff key k).0 (ground (arith, e))))

find_market_by_token_id-some_example :
    (e : EventData) × (mapping : TokenMapping) × (event_at (event_key "polymarket" "slug") store
      ≡ some e)
    × (find (λ (t : TokenMapping). str_eq t.clob_token_id "token") e.tokens ≡ some mapping)
    × (mapping.clob_token_id ≡ "token")
    × (find (λ (m : MarketData). str_eq m.id mapping.market_id) e.markets ≡ some market)
    × (market.id ≡ mapping.market_id)
unfolding find_market_by_token_id search_keys event_keys event_at market_by_token_id slug_of
    strip_prefix HashMap.get
find_market_by_token_id-some_example =
    find_market_by_token_id-some "polymarket" "token" "slug" market store own_keys refl
