-- ===== src/Events.antt =====
-- crates/external_services/src/polymarket/types.rs: events, their markets and tokens. The decoder of
-- a list of texts in JSON is a parameter; a number of type f64, which is only carried along, is its
-- 64 bits.
pub mod Redis
pub mod Gamma
pub mod Api
pub mod Refresh
use wup_demo.Prelude.{ℕ, ℤ, String, Bool, Option, none, some, List, [], ◌∷◌, ◌++◌, map, length}

abbrev pub F64 : Type 0
F64 = ℕ

pub record Market : Type 0 where
  pub id : String
  pub question : Option String
  pub slug : Option String
  pub clob_token_ids_raw : Option String
  pub outcomes : Option String
  pub outcome_prices : Option String
  pub best_bid : Option F64
  pub best_ask : Option F64
  pub volume : Option String
  pub liquidity : Option String
  pub active : Bool
  pub closed : Bool

pub record Event : Type 0 where
  pub id : String
  pub slug : String
  pub title : String
  pub description : Option String
  pub active : Bool
  pub closed : Bool
  pub markets : List Market

pub record TokenMapping : Type 0 where
  pub clob_token_id : String
  pub market_id : String
  pub event_slug : String

pub record MarketData : Type 0 where
  pub id : String
  pub question : Option String
  pub slug : Option String
  pub outcomes : Option String
  pub outcome_prices : Option String
  pub best_bid : Option F64
  pub best_ask : Option F64
  pub volume : Option String
  pub liquidity : Option String
  pub active : Bool
  pub closed : Bool
  pub clob_token_ids : List String

pub record EventData : Type 0 where
  pub event_id : String
  pub slug : String
  pub title : String
  pub description : Option String
  pub active : Bool
  pub closed : Bool
  pub markets : List MarketData
  pub market_count : ℕ
  pub tokens : List TokenMapping
  pub fetched_at : ℤ

abbrev or_empty : Option (List String) → List String
or_empty none = []
or_empty (some ids) = ids

-- `serde_json::from_str::<Vec<String>>`
module _ (from_str : String → Option (List String)) where
  unfoldable pub clob_token_ids : Market → List String
  clob_token_ids market = elim market.clob_token_ids_raw [
    | none ↦ []
    | some raw ↦ or_empty (from_str raw)
  ]

  unfoldable pub from_market : Market → MarketData
  from_market market = record {
    id = market.id;
    question = market.question;
    slug = market.slug;
    outcomes = market.outcomes;
    outcome_prices = market.outcome_prices;
    best_bid = market.best_bid;
    best_ask = market.best_ask;
    volume = market.volume;
    liquidity = market.liquidity;
    active = market.active;
    closed = market.closed;
    clob_token_ids = clob_token_ids market;
  }

  -- The inner loop of `extract_token_mappings`.
  unfoldable pub market_mappings : String → Market → List TokenMapping
  market_mappings slug market =
      map
        (λ token_id. record { clob_token_id = token_id; market_id = market.id; event_slug = slug })
        (clob_token_ids market)

  unfoldable pub markets_mappings : String → List Market → List TokenMapping
  markets_mappings slug [] = []
  markets_mappings slug (market ∷ markets) =
      market_mappings slug market ++ markets_mappings slug markets

  unfoldable pub extract_token_mappings : Event → List TokenMapping
  extract_token_mappings event = markets_mappings event.slug event.markets

  unfoldable pub from_event : ℤ → Event → EventData
  from_event now event = record {
    event_id = event.id;
    slug = event.slug;
    title = event.title;
    description = event.description;
    active = event.active;
    closed = event.closed;
    markets = map from_market event.markets;
    market_count = length event.markets;
    tokens = extract_token_mappings event;
    fetched_at = now;
  }
