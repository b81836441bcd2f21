-- ===== src/Service.antt =====
-- `OrderbookService` of crates/orderbook_service/src/service.rs: what it does with one message, from
-- the parsed message on, and what it publishes. The clock and the answers of Redis are inputs.
pub mod Subject
pub mod Published
pub mod Messages
pub mod Views
use wup_demo.Prelude.{
  ℤ, String, string_eq, Bool, true, false, Option, none, some, List, [], ◌∷◌, ◌++◌, map,
  if◌then◌else◌,
}
use wup_demo.Decimal.{Decimals}
use wup_demo.DashMap.{DashMaps}
use wup_demo.HashMap.{HashMap}
use wup_demo.Schema.{
  PriceLevel, OrderbookUpdate, OrderbookMessageType, NormalizedOrderbook, OrderSide, from_side,
  AggregatedPriceLevel, AggregatedPriceLevelChange, AggregatedPriceChangeEvent,
}
use wup_demo.Service.Subject.{change_subject}
use wup_demo.Store
use wup_demo.Store.{
  OrderbookStore, MarketMetadata, get_aggregated_bid, get_aggregated_ask, cache_market_metadata,
  get_cached_market_metadata,
}

-- A market as Redis knows it: its slug and its question, if it has one. A failed lookup answers
-- like one that finds nothing.
pub record RedisClient : Type 0 where
  pub find_market_by_token_id : String → String → Option (String × Option String)
  pub find_market_by_id : String → String → Option (String × Option String)

-- `if let Some(list) = list`
abbrev pub listed : {A : Type 0} → Option (List A) → List A
listed none = []
listed (some xs) = xs

-- The price and the side of every level that a message names.
unfoldable pub affected_levels : OrderSide → List PriceLevel → List (String × OrderSide)
affected_levels side levels = map (λ (l : PriceLevel). (l.price, side)) levels

unfoldable pub affected_updates : List OrderbookUpdate → List (String × OrderSide)
affected_updates updates = map (λ (u : OrderbookUpdate). (u.price, from_side u.side)) updates

unfoldable pub affected_prices : NormalizedOrderbook → List (String × OrderSide)
affected_prices msg = elim msg.message_type [
  | OrderbookMessageType.snapshot ↦
      affected_levels OrderSide.buy (listed msg.bids)
      ++ affected_levels OrderSide.sell (listed msg.asks)
  | OrderbookMessageType.delta ↦ affected_updates (listed msg.updates)
]

-- A level that has orders is published as it stands, and one that has none as empty.
abbrev pub change_of_level :
    String → OrderSide → Option AggregatedPriceLevel → AggregatedPriceLevelChange
change_of_level price side (some level) = record {
  price = level.price;
  side = side;
  total_size = level.total_size;
  platforms = level.platforms;
}
change_of_level price side none = record {
  price = price;
  side = side;
  total_size = "0";
  platforms = [];
}

-- The metadata that is built from an answer of Redis.
abbrev pub metadata_from : String → String × Option String → MarketMetadata
metadata_from platform (slug, none) = record { questions = []; slugs = (platform, slug) ∷ [] }
metadata_from platform (slug, some question) = record {
  questions = (platform, question) ∷ [];
  slugs = (platform, slug) ∷ [];
}

-- By the token first, then by the market.
unfoldable pub find_market :
    RedisClient → String → String → String → Option (String × Option String)
find_market redis platform market_id clob_token_id =
    let by_id = redis.find_market_by_id platform market_id in
    elim (redis.find_market_by_token_id platform clob_token_id) [
      | none ↦ by_id
      | some found ↦ some found
    ]

module _ ⦃D : Decimals⦄ ⦃M : DashMaps⦄ where
  unfoldable pub level_at :
      NormalizedOrderbook → OrderbookStore → String × OrderSide → Option AggregatedPriceLevel
  level_at msg store (price, OrderSide.buy) =
      get_aggregated_bid msg.market_id msg.clob_token_id price store
  level_at msg store (price, OrderSide.sell) =
      get_aggregated_ask msg.market_id msg.clob_token_id price store

  unfoldable pub published_change :
      NormalizedOrderbook → OrderbookStore → String × OrderSide → AggregatedPriceLevelChange
  published_change msg store at = change_of_level at.0 at.1 (level_at msg store at)

  unfoldable pub publish_change :
      ℤ → NormalizedOrderbook → OrderbookStore → String × AggregatedPriceChangeEvent
  publish_change now msg store = (
    change_subject msg,
    record {
      market_id = msg.market_id;
      asset_id = msg.clob_token_id;
      changes = map (published_change msg store) (affected_prices msg);
      timestamp_us = now;
    },
  )

  abbrev pub cache_found :
      String → String → Option (String × Option String) → OrderbookStore → OrderbookStore
  cache_found platform market_id none store = store
  cache_found platform market_id (some found) store =
      cache_market_metadata market_id (metadata_from platform found) store

  unfoldable pub fetch_and_cache_market_metadata :
      Option RedisClient → String → String → String → OrderbookStore → OrderbookStore
  fetch_and_cache_market_metadata none platform market_id clob_token_id store = store
  fetch_and_cache_market_metadata (some redis) platform market_id clob_token_id store =
      cache_found platform market_id (find_market redis platform market_id clob_token_id) store

  -- The metadata of a market is fetched until it is cached.
  unfoldable pub prepare :
      Option RedisClient → NormalizedOrderbook → OrderbookStore → OrderbookStore
  prepare redis msg store = elim (get_cached_market_metadata msg.market_id store) [
    | none ↦
        fetch_and_cache_market_metadata redis msg.platform msg.market_id msg.clob_token_id store
    | some metadata ↦ store
  ]

  -- The store after a message, and what is published if the service publishes changes.
  unfoldable pub process_message :
      Bool
      → Option RedisClient
      → ℤ
      → NormalizedOrderbook
      → OrderbookStore
      → OrderbookStore × Option (String × AggregatedPriceChangeEvent)
  process_message publish_changes redis now msg store =
      let after = Store.apply msg (prepare redis msg store) in
      (after, if publish_changes then some (publish_change now msg after) else none)
