-- ===== src/Store.antt =====
-- `OrderbookStore` of crates/orderbook_service/src/store.rs: the books by market and asset, the
-- cached metadata of the markets, and the counters. The store is shared by `Arc`; each method is
-- a function from the store to the store after it.
pub mod Replay
pub mod Health
pub mod Listing
pub mod Counts
pub mod Api
use wup_demo.Prelude.{
  ℕ, ◌+◌, ◌%◌, String, string_eq, Option, none, some, List, [], ◌∷◌, length, Bool, true, false,
}
use wup_demo.Decimal.{Decimals}
use wup_demo.DashMap.{DashMaps, DashMap}
use wup_demo.HashMap.{HashMap}
use wup_demo.Schema.{NormalizedOrderbook, OrderbookMessageType, AggregatedPriceLevel}
use wup_demo.Orderbook
use wup_demo.Orderbook.{Orderbook, u64_mod}
use wup_demo.Orderbook.Queries.{get_aggregated_bid_level, get_aggregated_ask_level}
use wup_demo.Response.{
  ResponseMetadata, OrderbookResponse, BboResponse, to_response, to_bbo_response,
}

pub record MarketMetadata : Type 0 where
  pub questions : HashMap String String
  pub slugs : HashMap String String

pub record OrderbookStore ⦃D : Decimals⦄ ⦃M : DashMaps⦄ : Type 0 where
  pub books : DashMap String (DashMap String Orderbook)
  pub market_metadata_cache : DashMap String MarketMetadata
  pub total_snapshots : ℕ
  pub total_deltas : ℕ

module _ ⦃D : Decimals⦄ ⦃M : DashMaps⦄ where
  abbrev pub new : OrderbookStore
  new = record {
    books = M.empty;
    market_metadata_cache = M.empty;
    total_snapshots = 0;
    total_deltas = 0;
  }

  unfoldable pub cache_market_metadata : String → MarketMetadata → OrderbookStore → OrderbookStore
  cache_market_metadata market_id metadata store = record store {
    market_metadata_cache = M.insert market_id metadata store.market_metadata_cache;
  }

  unfoldable pub get_cached_market_metadata : String → OrderbookStore → Option MarketMetadata
  get_cached_market_metadata market_id store = M.get market_id store.market_metadata_cache

  abbrev metadata_of : String → Option MarketMetadata → ResponseMetadata
  metadata_of market_id none = record {
    market_id = market_id;
    market_questions = [];
    market_slugs = [];
  }
  metadata_of market_id (some m) = record {
    market_id = market_id;
    market_questions = m.questions;
    market_slugs = m.slugs;
  }

  unfoldable pub build_response_metadata : String → OrderbookStore → ResponseMetadata
  build_response_metadata market_id store =
      metadata_of market_id (get_cached_market_metadata market_id store)

  -- `entry(market_id).or_default()`
  abbrev pub or_default : Option (DashMap String Orderbook) → DashMap String Orderbook
  or_default none = M.empty
  or_default (some market_books) = market_books

  -- `entry(clob_token_id).or_insert_with(Orderbook::new)`
  abbrev pub or_new : NormalizedOrderbook → Option Orderbook → Orderbook
  or_new msg none = Orderbook.new msg.clob_token_id msg.market_id
  or_new msg (some ob) = ob

  abbrev pub count_message : OrderbookMessageType → OrderbookStore → OrderbookStore
  count_message OrderbookMessageType.snapshot store = record store {
    total_snapshots = (store.total_snapshots + 1) % u64_mod;
  }
  count_message OrderbookMessageType.delta store = record store {
    total_deltas = (store.total_deltas + 1) % u64_mod;
  }

  unfoldable pub apply : NormalizedOrderbook → OrderbookStore → OrderbookStore
  apply msg store =
      let market_books = or_default (M.get msg.market_id store.books) in
      let orderbook = or_new msg (M.get msg.clob_token_id market_books) in
      count_message msg.message_type (record store {
        books =
            M.insert msg.market_id
              (M.insert msg.clob_token_id (Orderbook.apply msg orderbook) market_books) store.books;
      })

  -- `books.get(market_id).and_then(|market_books| market_books.get(asset_id))`
  abbrev pub in_market : String → Option (DashMap String Orderbook) → Option Orderbook
  in_market asset_id none = none
  in_market asset_id (some market_books) = M.get asset_id market_books

  unfoldable pub find_book : String → String → OrderbookStore → Option Orderbook
  find_book market_id asset_id store = in_market asset_id (M.get market_id store.books)

  unfoldable pub get : String → String → Option ℕ → OrderbookStore → Option OrderbookResponse
  get market_id asset_id depth store = elim (find_book market_id asset_id store) [
    | none ↦ none
    | some ob ↦ some (to_response depth (build_response_metadata market_id store) ob)
  ]

  unfoldable pub get_bbo : String → String → OrderbookStore → Option BboResponse
  get_bbo market_id asset_id store = elim (find_book market_id asset_id store) [
    | none ↦ none
    | some ob ↦ some (to_bbo_response (build_response_metadata market_id store) ob)
  ]

  unfoldable pub get_aggregated_bid :
      String → String → String → OrderbookStore → Option AggregatedPriceLevel
  get_aggregated_bid market_id asset_id price store = elim (find_book market_id asset_id store) [
    | none ↦ none
    | some ob ↦ get_aggregated_bid_level price ob
  ]

  unfoldable pub get_aggregated_ask :
      String → String → String → OrderbookStore → Option AggregatedPriceLevel
  get_aggregated_ask market_id asset_id price store = elim (find_book market_id asset_id store) [
    | none ↦ none
    | some ob ↦ get_aggregated_ask_level price ob
  ]
