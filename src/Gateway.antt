-- ===== src/Gateway.antt =====
-- The messages of crates/gateway/src/protocol.rs, and what crates/gateway/src/ws_server.rs does with
-- one message of a client. Sending can fail, which is an input, as are the clock and the snapshots
-- that `send_snapshot` fetches; what is sent is a part of the outcome.
pub mod Answers
pub mod Keeps
pub mod Router
use wup_demo.Prelude.{
  ℕ, ℤ, Eq, String, Bool, true, false, Option, none, some, List, [], ◌∷◌, ◌++◌, map, if◌then◌else◌,
}
use wup_demo.DashMap.{DashMaps, DashMap}
use wup_demo.Schema.{
  PlatformEntry, AggregatedPriceLevel, AggregatedPriceLevelChange, AggregatedPriceChangeEvent,
}
use wup_demo.Subscription.{validate_pattern}
use wup_demo.Registry.{
  Display, GatewayError, invalid_subject, channel_send, Result, ok, err, ClientState,
  ClientRegistry, subscribe, unsubscribe,
}

pub data ClientMessage : Type 0 where
  subscribe_to unsubscribe_from : List String → ClientMessage
  ping : ClientMessage

pub record OrderbookData : Type 0 where
  pub market_id : String
  pub asset_id : String
  pub platforms : List String
  pub bids : List AggregatedPriceLevel
  pub asks : List AggregatedPriceLevel
  pub system_best_bid : Option String
  pub system_best_ask : Option String
  pub timestamp_us : ℤ

pub record PriceChangeData : Type 0 where
  pub market_id : String
  pub asset_id : String
  pub changes : List AggregatedPriceLevelChange
  pub timestamp_us : ℤ

pub data ServerMessage : Type 0 where
  snapshot : OrderbookData → ServerMessage
  price_change : PriceChangeData → ServerMessage
  pong : ServerMessage
  subscribed unsubscribed : List String → ServerMessage
  error : String → String → ServerMessage

-- `impl From<AggregatedPriceChangeEvent> for PriceChangeData`
unfoldable pub from_event : AggregatedPriceChangeEvent → PriceChangeData
from_event event = record {
  market_id = event.market_id;
  asset_id = event.asset_id;
  changes = event.changes;
  timestamp_us = event.timestamp_us;
}

pub record HttpPlatformSize : Type 0 where
  pub platform : String
  pub size : String

pub record HttpAggregatedPriceLevel : Type 0 where
  pub price : String
  pub total_size : String
  pub platforms : List HttpPlatformSize

pub record OrderbookHttpResponse : Type 0 where
  pub asset_id : String
  pub market_id : String
  pub platforms : List String
  pub bids : List HttpAggregatedPriceLevel
  pub asks : List HttpAggregatedPriceLevel
  pub system_best_bid : Option String
  pub system_best_ask : Option String

abbrev pub entry_of : HttpPlatformSize → PlatformEntry
entry_of p = record { platform = p.platform; size = p.size }

abbrev pub level_of : HttpAggregatedPriceLevel → AggregatedPriceLevel
level_of level = record {
  price = level.price;
  total_size = level.total_size;
  platforms = map entry_of level.platforms;
}

unfoldable pub to_orderbook_data : ℤ → OrderbookHttpResponse → OrderbookData
to_orderbook_data timestamp_us r = record {
  market_id = r.market_id;
  asset_id = r.asset_id;
  platforms = r.platforms;
  bids = map level_of r.bids;
  asks = map level_of r.asks;
  system_best_bid = r.system_best_bid;
  system_best_ask = r.system_best_ask;
  timestamp_us = timestamp_us;
}

-- The loop that validates the subjects: the error of the first that is invalid.
unfoldable pub first_error : List String → Option String
first_error [] = none
first_error (s ∷ ss) =
    let rest = first_error ss in elim (validate_pattern s) [ none ↦ rest | some e ↦ some e ]

unfoldable pub all_snapshots : (String → List ServerMessage) → List String → List ServerMessage
all_snapshots snapshots [] = []
all_snapshots snapshots (s ∷ ss) = snapshots s ++ all_snapshots snapshots ss

pub record Outcome ⦃M : DashMaps⦄ (ClientId : Type 0) : Type 0 where
  pub registry : ClientRegistry ClientId
  pub sent : List ServerMessage
  pub failure : Option GatewayError

module _ ⦃M : DashMaps⦄ {ClientId : Type 0} where
  -- `client.send(answer)?`, and what is sent after it.
  abbrev pub answer :
      Bool → ServerMessage → List ServerMessage → ClientRegistry ClientId → Outcome ClientId
  answer accepts message more reg =
      if accepts
      then record { registry = reg; sent = message ∷ more; failure = none }
      else record { registry = reg; sent = []; failure = some channel_send }

  abbrev pub refuse : GatewayError → ClientRegistry ClientId → Outcome ClientId
  refuse e reg = record { registry = reg; sent = []; failure = some e }

module _ ⦃M : DashMaps⦄ {ClientId : Type 0} ⦃i : Eq ClientId⦄ where
  -- `update_ping` of client.rs, on the shared state of the client.
  unfoldable pub update_ping : ℤ → ClientId → ClientRegistry ClientId → ClientRegistry ClientId
  update_ping now id reg = elim (M.get id reg.clients) [
    | none ↦ reg
    | some client ↦ record reg {
      clients = M.insert id (record client { last_ping = now }) reg.clients;
    }
  ]

  unfoldable pub handle_subscribe :
      ⦃d : Display ClientId⦄
      → Bool
      → (String → List ServerMessage)
      → ClientId
      → List String
      → ClientRegistry ClientId
      → Outcome ClientId
  handle_subscribe accepts snapshots id subjects reg = elim (first_error subjects) [
    | some e ↦ refuse (invalid_subject e) reg
    | none ↦ elim (subscribe id subjects reg) [
      | err e ↦ refuse e reg
      | ok reg' ↦ answer accepts (subscribed subjects) (all_snapshots snapshots subjects) reg'
    ]
  ]

  unfoldable pub handle_unsubscribe :
      ⦃d : Display ClientId⦄
      → Bool
      → ClientId
      → List String
      → ClientRegistry ClientId
      → Outcome ClientId
  handle_unsubscribe accepts id subjects reg = elim (unsubscribe id subjects reg) [
    | err e ↦ refuse e reg
    | ok reg' ↦ answer accepts (unsubscribed subjects) [] reg'
  ]

  unfoldable pub handle_client_message :
      ⦃d : Display ClientId⦄
      → Bool
      → (String → List ServerMessage)
      → ℤ
      → ClientId
      → ClientMessage
      → ClientRegistry ClientId
      → Outcome ClientId
  handle_client_message accepts snapshots now id (subscribe_to subjects) reg =
      handle_subscribe accepts snapshots id subjects reg
  handle_client_message accepts snapshots now id (unsubscribe_from subjects) reg =
      handle_unsubscribe accepts id subjects reg
  handle_client_message accepts snapshots now id ping reg =
      answer accepts pong [] (update_ping now id reg)
