-- ===== src/Response.antt =====
-- The API responses of crates/orderbook_service/src/orderbook.rs, and how a book becomes one.
use wup_demo.Prelude.{ℕ, ◌-◌, ℤ, String, Option, none, some, List}
use wup_demo.Decimal.{Decimals, Decimal}
use wup_demo.HashMap.{HashMap}
use wup_demo.Schema.{AggregatedPriceLevel}
use wup_demo.Orderbook.{Orderbook, u64_mod}
use wup_demo.Orderbook.Queries.{
  top_bids_with_platforms, top_asks_with_platforms, mid_price, spread, bid_depth, ask_depth,
  bid_levels, ask_levels,
}

pub record MarketInfo : Type 0 where
  pub market_id : String
  pub questions : HashMap String String
  pub slugs : HashMap String String

pub record ResponseMetadata : Type 0 where
  pub market_id : String
  pub market_questions : HashMap String String
  pub market_slugs : HashMap String String

pub record OrderbookResponse : Type 0 where
  pub market : MarketInfo
  pub asset_id : String
  pub market_id : String
  pub platforms : List String
  pub bids : List AggregatedPriceLevel
  pub asks : List AggregatedPriceLevel
  pub exchange_best_bid : HashMap String String
  pub exchange_best_ask : HashMap String String
  pub system_best_bid : Option String
  pub system_best_ask : Option String
  pub mid_price : Option String
  pub spread : Option String
  pub bid_depth : String
  pub ask_depth : String
  pub bid_levels : ℕ
  pub ask_levels : ℕ
  pub last_exchange_timestamp : String
  pub last_received_at : ℤ
  pub update_count : ℕ

pub record BboResponse : Type 0 where
  pub asset_id : String
  pub market_id : String
  pub market : MarketInfo
  pub exchange_best_bid : HashMap String String
  pub exchange_best_ask : HashMap String String
  pub system_best_bid : Option String
  pub system_best_ask : Option String
  pub mid_price : Option String
  pub spread : Option String
  pub last_received_at : ℤ

pub record TokenSummary : Type 0 where
  pub asset_id : String
  pub platforms : List String
  pub system_best_bid : Option String
  pub system_best_ask : Option String
  pub bid_levels : ℕ
  pub ask_levels : ℕ
  pub update_count : ℕ

abbrev pub market_info : ResponseMetadata → MarketInfo
market_info metadata = record {
  market_id = metadata.market_id;
  questions = metadata.market_questions;
  slugs = metadata.market_slugs;
}

-- `depth.unwrap_or(usize::MAX)`
abbrev pub depth_or_max : Option ℕ → ℕ
depth_or_max none = u64_mod - 1
depth_or_max (some n) = n

module _ ⦃D : Decimals⦄ where
  abbrev pub printed : Option Decimal → Option String
  printed none = none
  printed (some d) = some (D.to_string d)

  unfoldable pub to_response : Option ℕ → ResponseMetadata → Orderbook → OrderbookResponse
  to_response depth metadata ob = record {
    market = market_info metadata;
    asset_id = ob.clob_token_id;
    market_id = ob.market_id;
    platforms = ob.platforms;
    bids = top_bids_with_platforms (depth_or_max depth) ob;
    asks = top_asks_with_platforms (depth_or_max depth) ob;
    exchange_best_bid = ob.exchange_best_bid;
    exchange_best_ask = ob.exchange_best_ask;
    system_best_bid = printed ob.system_best_bid;
    system_best_ask = printed ob.system_best_ask;
    mid_price = printed (mid_price ob);
    spread = printed (spread ob);
    bid_depth = D.to_string (bid_depth ob);
    ask_depth = D.to_string (ask_depth ob);
    bid_levels = bid_levels ob;
    ask_levels = ask_levels ob;
    last_exchange_timestamp = ob.last_exchange_timestamp;
    last_received_at = ob.last_received_at;
    update_count = ob.update_count;
  }

  unfoldable pub to_bbo_response : ResponseMetadata → Orderbook → BboResponse
  to_bbo_response metadata ob = record {
    asset_id = ob.clob_token_id;
    market_id = ob.market_id;
    market = market_info metadata;
    exchange_best_bid = ob.exchange_best_bid;
    exchange_best_ask = ob.exchange_best_ask;
    system_best_bid = printed ob.system_best_bid;
    system_best_ask = printed ob.system_best_ask;
    mid_price = printed (mid_price ob);
    spread = printed (spread ob);
    last_received_at = ob.last_received_at;
  }

  unfoldable pub to_summary : ResponseMetadata → Orderbook → TokenSummary
  to_summary metadata ob = record {
    asset_id = ob.clob_token_id;
    platforms = ob.platforms;
    system_best_bid = printed ob.system_best_bid;
    system_best_ask = printed ob.system_best_ask;
    bid_levels = bid_levels ob;
    ask_levels = ask_levels ob;
    update_count = ob.update_count;
  }
