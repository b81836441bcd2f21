-- ===== src/Gateway/Router/Served.antt =====
-- The gateway and the orderbook service together: what a subscription is answered with when the HTTP
-- interface is that of a store. What `serde` makes of an answer on its way is written out: a field is
-- read under the name that it is written under.
use wup_demo.Prelude.{String, Bool, Option, none, some, List, [], ◌∷◌, map, ◌≡◌, if◌then◌else◌}
use wup_demo.Schema.{AggregatedPriceLevel, PlatformEntry}
use wup_demo.Reply.{Reply}
use wup_demo.Response.{OrderbookResponse}
use wup_demo.Store.Listing.{MarketOrderbooksResponse}
use wup_demo.Gateway.{
  ServerMessage, OrderbookData, GatewayError, OrderbookHttpResponse, HttpAggregatedPriceLevel,
  HttpPlatformSize,
}
use wup_demo.Gateway.Router.{Answer, Sending, nothing, fails, MarketOrderbooksHttpResponse}

abbrev read_size : PlatformEntry → HttpPlatformSize
read_size p = record { platform = p.platform; size = p.size }

abbrev read_level : AggregatedPriceLevel → HttpAggregatedPriceLevel
read_level level = record {
  price = level.price;
  total_size = level.total_size;
  platforms = map read_size level.platforms;
}

-- The fields that the gateway reads.
abbrev pub read_response : OrderbookResponse → OrderbookHttpResponse
read_response r = record {
  asset_id = r.asset_id;
  market_id = r.market_id;
  platforms = r.platforms;
  bids = map read_level r.bids;
  asks = map read_level r.asks;
  system_best_bid = r.system_best_bid;
  system_best_ask = r.system_best_ask;
}

abbrev pub received : Reply OrderbookResponse → Answer OrderbookHttpResponse
received (Reply.ok r) = Answer.body (some (read_response r))
received (Reply.error status message) = Answer.refused

abbrev pub received_market : Reply MarketOrderbooksResponse → Answer MarketOrderbooksHttpResponse
received_market (Reply.ok r) = Answer.body (
    some (record {
      market_id = r.market_id;
      asset_count = r.asset_count;
      assets = map read_response r.assets;
    }))
received_market (Reply.error status message) = Answer.refused

module _ (accepts : ServerMessage → Bool) where
  -- One message, if the client's channel takes it.
  abbrev pub sends_one : ServerMessage → Sending
  sends_one m =
      if accepts m
      then record { sent = m ∷ []; failure = none }
      else fails GatewayError.channel_send

  -- The same book: the market and asset, the platforms, all levels and both best prices.
  abbrev pub SameBook : OrderbookData → OrderbookResponse → Type 0
  SameBook d r =
      (d.market_id ≡ r.market_id)
      × (d.asset_id ≡ r.asset_id)
      × (d.platforms ≡ r.platforms)
      × (d.bids ≡ r.bids)
      × (d.asks ≡ r.asks)
      × (d.system_best_bid ≡ r.system_best_bid)
      × (d.system_best_ask ≡ r.system_best_ask)

  -- What is sent for the answer of the store on one asset.
  abbrev pub Tells : Option OrderbookResponse → Sending → Type 0
  Tells none s = s ≡ nothing
  Tells (some r) s = (d : OrderbookData) × (s ≡ sends_one (ServerMessage.snapshot d)) × SameBook d r

  -- One message for each book, in their order, until the client's channel refuses one.
  abbrev pub TellsEach : List OrderbookResponse → Sending → Type 0
  TellsEach [] s = s ≡ nothing
  TellsEach (r ∷ rs) s =
      (d : OrderbookData) × (rest : Sending) × (s ≡ (
        if accepts (ServerMessage.snapshot d)
        then record { sent = ServerMessage.snapshot d ∷ rest.sent; failure = rest.failure }
        else fails GatewayError.channel_send))
      × SameBook d r
      × TellsEach rs rest

  abbrev pub TellsMarket : Option MarketOrderbooksResponse → Sending → Type 0
  TellsMarket none s = s ≡ nothing
  TellsMarket (some r) s = TellsEach r.assets s
