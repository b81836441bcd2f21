-- ===== src/Normalizer/Polymarket.antt =====
-- crates/normalizer/src/polymarket/adapter.rs: the messages of Polymarket, how they are parsed and
-- what they are turned into. The decoders that `derive(Deserialize)` generates from the structs are
-- parameters, which use the readers of strings and numbers that the structs name.
pub mod Groups
pub mod Books
pub mod Parsing
use wup_demo.Prelude.{
  ℤ, String, str_eq, string_eq, Option, none, some, List, [], ◌∷◌, ◌++◌, map, if◌then◌else◌,
}
use wup_demo.HashMap
use wup_demo.HashMap.{HashMap}
use wup_demo.Text.{join}
use wup_demo.Schema.{NormalizedOrderbook, OrderbookMessageType, OrderbookUpdate, PriceLevel, Side}
use wup_demo.Normalizer.{AdapterConfig, ExchangeAdapter}
use wup_demo.Normalizer.Json.{Json, string_or_number, string_or_number_default}

pub record RawPriceLevel : Type 0 where
  pub price : String
  pub size : String

pub record RawBookMessage : Type 0 where
  pub event_type : String
  pub asset_id : String
  pub market : String
  pub bids : List RawPriceLevel
  pub asks : List RawPriceLevel
  pub timestamp : String
  pub hash : String
  pub received_at : ℤ

pub record RawPriceChange : Type 0 where
  pub asset_id : String
  pub price : String
  pub size : String
  pub side : String
  pub hash : String
  pub best_bid : String
  pub best_ask : String

pub record RawPriceChangeMessage : Type 0 where
  pub event_type : String
  pub market : String
  pub price_changes : List RawPriceChange
  pub timestamp : String
  pub received_at : ℤ

pub data ParsedMessage : Type 0 where
  book : RawBookMessage → ParsedMessage
  price_change : RawPriceChangeMessage → ParsedMessage
  unknown : String → ParsedMessage

abbrev pub platform_name : String
platform_name = "polymarket"

unfoldable pub price_level : RawPriceLevel → PriceLevel
price_level l = record { price = l.price; size = l.size }

-- `levels.first().map(|l| l.price.clone())`
abbrev pub first_price : List PriceLevel → Option String
first_price [] = none
first_price (l ∷ ls) = some l.price

unfoldable pub transform_book : String → RawBookMessage → NormalizedOrderbook
transform_book normalized_at raw =
    let bids = map price_level raw.bids in
    let asks = map price_level raw.asks in
    record {
      platform = platform_name;
      clob_token_id = raw.asset_id;
      market_id = raw.market;
      message_type = OrderbookMessageType.snapshot;
      bids = some bids;
      asks = some asks;
      updates = none;
      best_bid = first_price bids;
      best_ask = first_price asks;
      exchange_timestamp = raw.timestamp;
      received_at = raw.received_at;
      normalized_at = normalized_at;
    }

abbrev or_default : Option (List RawPriceChange) → List RawPriceChange
or_default none = []
or_default (some changes) = changes

-- The changes of each asset, and the best prices that its last change names.
pub record Grouped : Type 0 where
  pub grouped : HashMap String (List RawPriceChange)
  pub best_prices : HashMap String (String × String)

unfoldable pub group : List RawPriceChange → Grouped → Grouped
group [] g = g
group (change ∷ changes) g = group changes (record {
  grouped =
      HashMap.insert change.asset_id
        (or_default (HashMap.get change.asset_id g.grouped) ++ change ∷ []) g.grouped;
  best_prices = HashMap.insert change.asset_id (change.best_bid, change.best_ask) g.best_prices;
})

unfoldable pub update_of : RawPriceChange → OrderbookUpdate
update_of c = record {
  side = if str_eq c.side "BUY" then Side.buy else Side.sell;
  price = c.price;
  size = c.size;
}

abbrev pub or_empty : Option (String × String) → String × String
or_empty none = ("", "")
or_empty (some best) = best

-- The message of one asset.
unfoldable pub delta_of :
    String
    → RawPriceChangeMessage
    → String × String
    → String × List RawPriceChange
    → NormalizedOrderbook
delta_of normalized_at msg best (clob_token_id, changes) = record {
  platform = platform_name;
  clob_token_id = clob_token_id;
  market_id = msg.market;
  message_type = OrderbookMessageType.delta;
  bids = none;
  asks = none;
  updates = some (map update_of changes);
  best_bid = some best.0;
  best_ask = some best.1;
  exchange_timestamp = msg.timestamp;
  received_at = msg.received_at;
  normalized_at = normalized_at;
}

unfoldable pub transform_price_change : String → RawPriceChangeMessage → List NormalizedOrderbook
transform_price_change normalized_at msg =
    let g = group msg.price_changes (record { grouped = []; best_prices = [] }) in
    map (λ p. delta_of normalized_at msg (or_empty (HashMap.get p.0 g.best_prices)) p) g.grouped

unfoldable pub transform : String → ParsedMessage → List NormalizedOrderbook
transform normalized_at (ParsedMessage.book b) = transform_book normalized_at b ∷ []
transform normalized_at (ParsedMessage.price_change pc) = transform_price_change normalized_at pc
transform normalized_at (ParsedMessage.unknown t) = []

-- The loop of `parse_and_transform`.
unfoldable pub transform_all : String → List ParsedMessage → List NormalizedOrderbook
transform_all normalized_at [] = []
transform_all normalized_at (parsed ∷ rest) =
    transform normalized_at parsed ++ transform_all normalized_at rest

unfoldable pub build_output_subject : AdapterConfig → NormalizedOrderbook → String
build_output_subject config msg =
    join (config.output_subject_prefix ∷ msg.market_id ∷ msg.clob_token_id ∷ [])

module _ ⦃J : Json⦄ where
  -- `serde_json::from_value` at the two structs, given the readers that they name.
  pub record Decoders : Type 0 where
    pub book_from_value :
        (J.Value → String) → (Option J.Value → String) → J.Value → Option RawBookMessage
    pub price_change_from_value :
        (J.Value → String) → (Option J.Value → String) → J.Value → Option RawPriceChangeMessage

  -- `obj.get("event_type").and_then(|v| v.as_str()).unwrap_or("unknown")`
  unfoldable pub event_type_of : J.Value → String
  event_type_of obj = elim (J.get "event_type" obj) [
    | none ↦ "unknown"
    | some v ↦ elim (J.as_str v) [ none ↦ "unknown" | some s ↦ s ]
  ]

  unfoldable pub parse_value : Decoders → J.Value → Option ParsedMessage
  parse_value d obj =
      let event_type = event_type_of obj in
      if str_eq event_type "book"
      then elim (d.book_from_value string_or_number string_or_number_default obj) [
        | none ↦ none
        | some msg ↦ some (ParsedMessage.book msg)
      ]
      else if str_eq event_type "price_change"
      then elim (d.price_change_from_value string_or_number string_or_number_default obj) [
        | none ↦ none
        | some msg ↦ some (ParsedMessage.price_change msg)
      ]
      else some (ParsedMessage.unknown event_type)

  abbrev push : ParsedMessage → Option (List ParsedMessage) → Option (List ParsedMessage)
  push m none = none
  push m (some ms) = some (m ∷ ms)

  -- The loop over an array: the first element that fails ends it.
  unfoldable pub parse_values : Decoders → List J.Value → Option (List ParsedMessage)
  parse_values d [] = some []
  parse_values d (item ∷ items) =
      let rest = parse_values d items in
      elim (parse_value d item) [ none ↦ none | some m ↦ push m rest ]

  unfoldable pub parse_all : Decoders → String → Option (List ParsedMessage)
  parse_all d json = elim (J.from_str json) [
    | none ↦ none
    | some value ↦ elim (J.as_array value) [
      | some items ↦ parse_values d items
      | none ↦ parse_values d (value ∷ [])
    ]
  ]

  unfoldable pub parse_and_transform :
      Decoders → String → String → Option (List NormalizedOrderbook)
  parse_and_transform d now payload = elim (parse_all d payload) [
    | none ↦ none
    | some parsed ↦ some (transform_all now parsed)
  ]

  abbrev pub polymarket_adapter : Decoders → ExchangeAdapter
  polymarket_adapter d = record {
    name = platform_name;
    filter_subject = "market.polymarket.>";
    parse_and_transform = parse_and_transform d;
    build_output_subject = build_output_subject;
  }
