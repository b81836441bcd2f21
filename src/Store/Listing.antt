-- ===== src/Store/Listing.antt =====
-- The answers of `OrderbookStore` about whole markets: get_market, get_market_bbos, list_all and
-- stats of crates/orderbook_service/src/store.rs. They run over the maps in their order of
-- iteration; `len` of a map is the number of entries that iteration meets.
use wup_demo.Prelude.{ℕ, ◌+◌, String, string_eq, Option, none, some, List, [], ◌∷◌, map, length}
use wup_demo.Decimal.{Decimals}
use wup_demo.DashMap.{DashMaps, DashMap}
use wup_demo.HashMap.{HashMap}
use wup_demo.Orderbook.{Orderbook}
use wup_demo.Response.{
  OrderbookResponse, BboResponse, TokenSummary, to_response, to_bbo_response, to_summary,
}
use wup_demo.Store.{
  OrderbookStore, MarketMetadata, build_response_metadata, get_cached_market_metadata,
}

pub record MarketOrderbooksResponse : Type 0 where
  pub market_id : String
  pub questions : HashMap String String
  pub slugs : HashMap String String
  pub asset_count : ℕ
  pub assets : List OrderbookResponse

pub record MarketBbosResponse : Type 0 where
  pub market_id : String
  pub questions : HashMap String String
  pub slugs : HashMap String String
  pub asset_count : ℕ
  pub bbos : List BboResponse

pub record MarketSummary : Type 0 where
  pub market_id : String
  pub questions : HashMap String String
  pub slugs : HashMap String String
  pub asset_count : ℕ
  pub assets : List TokenSummary

pub record AllOrderbooksResponse : Type 0 where
  pub market_count : ℕ
  pub total_assets : ℕ
  pub total_snapshots : ℕ
  pub total_deltas : ℕ
  pub markets : List MarketSummary

pub record StoreStats : Type 0 where
  pub market_count : ℕ
  pub total_assets : ℕ
  pub total_snapshots : ℕ
  pub total_deltas : ℕ

-- `map(|m| m.questions).unwrap_or_default()`, and the same for the slugs.
abbrev pub questions_of : Option MarketMetadata → HashMap String String
questions_of none = []
questions_of (some m) = m.questions

abbrev pub slugs_of : Option MarketMetadata → HashMap String String
slugs_of none = []
slugs_of (some m) = m.slugs

-- `iter().map(|m| m.asset_count).sum()`
unfoldable pub sum_assets : List MarketSummary → ℕ
sum_assets [] = 0
sum_assets (m ∷ ms) = m.asset_count + sum_assets ms

module _ ⦃D : Decimals⦄ ⦃M : DashMaps⦄ where
  abbrev pub Books : Type 0
  Books = DashMap String Orderbook

  unfoldable pub get_market : String → Option ℕ → OrderbookStore → Option MarketOrderbooksResponse
  get_market market_id depth store =
      let metadata = build_response_metadata market_id store in
      elim (M.get market_id store.books) [
        | none ↦ none
        | some market_books ↦
            let assets =
              map (λ (e : String × Orderbook). to_response depth metadata e.1)
                (M.iter market_books) in
            some (record {
              market_id = market_id;
              questions = metadata.market_questions;
              slugs = metadata.market_slugs;
              asset_count = length assets;
              assets = assets;
            })
      ]

  unfoldable pub get_market_bbos : String → OrderbookStore → Option MarketBbosResponse
  get_market_bbos market_id store =
      let metadata = build_response_metadata market_id store in
      elim (M.get market_id store.books) [
        | none ↦ none
        | some market_books ↦
            let bbos =
              map (λ (e : String × Orderbook). to_bbo_response metadata e.1)
                (M.iter market_books) in
            some (record {
              market_id = market_id;
              questions = metadata.market_questions;
              slugs = metadata.market_slugs;
              asset_count = length bbos;
              bbos = bbos;
            })
      ]

  unfoldable pub summarize : OrderbookStore → String × Books → MarketSummary
  summarize store entry =
      let metadata = build_response_metadata entry.0 store in
      let summaries = map (λ (e : String × Orderbook). to_summary metadata e.1) (M.iter entry.1) in
      let market_meta = get_cached_market_metadata entry.0 store in
      record {
        market_id = entry.0;
        questions = questions_of market_meta;
        slugs = slugs_of market_meta;
        asset_count = length summaries;
        assets = summaries;
      }

  unfoldable pub list_all : OrderbookStore → AllOrderbooksResponse
  list_all store =
      let markets = map (summarize store) (M.iter store.books) in
      record {
        market_count = length markets;
        total_assets = sum_assets markets;
        total_snapshots = store.total_snapshots;
        total_deltas = store.total_deltas;
        markets = markets;
      }

  -- The loop of `stats`.
  unfoldable pub count_assets : List (String × Books) → ℕ → ℕ
  count_assets [] total = total
  count_assets (market ∷ markets) total = count_assets markets (total + length (M.iter market.1))

  unfoldable pub stats : OrderbookStore → StoreStats
  stats store = record {
    market_count = length (M.iter store.books);
    total_assets = count_assets (M.iter store.books) 0;
    total_snapshots = store.total_snapshots;
    total_deltas = store.total_deltas;
  }

  unfoldable pub market_count : OrderbookStore → ℕ
  market_count store = length (M.iter store.books)
