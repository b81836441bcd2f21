-- ===== src/Schema.antt =====
-- crates/normalizer/src/schema.rs: the messages that the services exchange. Prices and sizes are
-- still text here. `PlatformEntry` and `AggregatedPriceLevel` stand for their twins in
-- crates/orderbook_service/src/orderbook.rs too, which have the same fields.
use wup_demo.Prelude.{String, Option, List, ℤ}

pub record PriceLevel : Type 0 where
  pub price : String
  pub size : String

pub data OrderbookMessageType : Type 0 where
  snapshot delta : OrderbookMessageType

pub data Side : Type 0 where
  buy sell : Side

pub record OrderbookUpdate : Type 0 where
  pub side : Side
  pub price : String
  pub size : String

pub record NormalizedOrderbook : Type 0 where
  pub platform : String
  pub clob_token_id : String
  pub market_id : String
  pub message_type : OrderbookMessageType
  pub bids : Option (List PriceLevel)
  pub asks : Option (List PriceLevel)
  pub updates : Option (List OrderbookUpdate)
  pub best_bid : Option String
  pub best_ask : Option String
  pub exchange_timestamp : String
  pub received_at : ℤ
  pub normalized_at : String

pub record PlatformEntry : Type 0 where
  pub platform : String
  pub size : String

pub record AggregatedPriceLevel : Type 0 where
  pub price : String
  pub total_size : String
  pub platforms : List PlatformEntry

pub data OrderSide : Type 0 where
  buy sell : OrderSide

-- `impl From<Side> for OrderSide`
unfoldable pub from_side : Side → OrderSide
from_side Side.buy = OrderSide.buy
from_side Side.sell = OrderSide.sell

pub record AggregatedPriceLevelChange : Type 0 where
  pub price : String
  pub side : OrderSide
  pub total_size : String
  pub platforms : List PlatformEntry

pub record AggregatedPriceChangeEvent : Type 0 where
  pub market_id : String
  pub asset_id : String
  pub changes : List AggregatedPriceLevelChange
  pub timestamp_us : ℤ
