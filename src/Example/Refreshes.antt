-- ===== src/Example/Refreshes.antt =====
-- The theorem on a refresh of an event, at an event whose identifier and title are its slug.
use wup_demo.Prelude.{
  ℕ, ◌==◌, ℤ, pos, negsuc, String, string_eq, str_eq, Bool, true, false, not, ◌&&◌, Option, none,
  some, List, [], ◌∷◌, ◌≡◌, refl, if◌then◌else◌,
}
use wup_demo.HashMap
use wup_demo.HashMap.{HashMap}
use wup_demo.Reply.{Reply}
use wup_demo.Events.{
  Event, EventData, MarketData, TokenMapping, from_event, extract_token_mappings, markets_mappings,
}
use wup_demo.Events.Redis.{Stored, event_key, store_event, store_value}
use wup_demo.Events.Gamma
use wup_demo.Events.Gamma.{Http, Result, Response, fetch_event_by_slug}
use wup_demo.Events.Api.{refreshed, refresh_event_handler}
use wup_demo.Example.Events.{redis}

abbrev plain : String → EventData
plain s = record {
  event_id = s;
  slug = s;
  title = s;
  description = none;
  active = true;
  closed = false;
  markets = [];
  market_count = 0;
  tokens = [];
  fetched_at = pos 0;
}

abbrev is_none : Option String → Bool
is_none none = true
is_none (some s) = false

abbrev is_nil : {A : Type 0} → List A → Bool
is_nil [] = true
is_nil (x ∷ xs) = false

abbrev is_origin : ℤ → Bool
is_origin (pos n) = n == 0
is_origin (negsuc n) = false

abbrev is_plain : EventData → Bool
is_plain e =
    str_eq e.event_id e.slug
    && str_eq e.title e.slug
    && is_none e.description
    && e.active
    && not e.closed
    && is_nil e.markets
    && e.market_count == 0
    && is_nil e.tokens
    && is_origin e.fetched_at

abbrev event_of :
    String
    → String
    → String
    → Option String
    → Bool
    → Bool
    → List MarketData
    → ℕ
    → List TokenMapping
    → ℤ
    → EventData
event_of id s t d a c ms n ts z = record {
  event_id = id;
  slug = s;
  title = t;
  description = d;
  active = a;
  closed = c;
  markets = ms;
  market_count = n;
  tokens = ts;
  fetched_at = z;
}

abbrev written : EventData → Option String
written e = if is_plain e then some e.slug else none

instance abbrev stored : Stored EventData
stored = record { to_string = written; from_str = λ s. some (plain s) }

abbrev fetched : Event
fetched = record {
  id = "slug";
  slug = "slug";
  title = "slug";
  description = none;
  active = true;
  closed = false;
  markets = [];
}

instance abbrev http : Http
http = record {
  get = λ url. Result.ok (record {
    is_success = true;
    status = "200 OK";
    text = none;
    json_events = Result.ok (fetched ∷ []);
    json_event = Result.ok fetched;
  });
  from_str = λ s. none;
}

abbrev after : HashMap String String
after = HashMap.insert (event_key "polymarket" "slug") "slug" []

run :
    refresh_event_handler "down" (pos 0) Gamma.new "polymarket" "slug" []
    ≡ (Reply.ok (refreshed "polymarket" "slug" (plain "slug")), after)
unfolding refresh_event_handler Gamma.fetch_event_data fetch_event_by_slug Gamma.new store_event
    store_value from_event extract_token_mappings markets_mappings
run = refl
