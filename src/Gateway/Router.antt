-- ===== src/Gateway/Router.antt =====
-- `ChangeRouter` of crates/gateway/src/router.rs: a published change is sent on to the clients that
-- subscribe to it, and a new subscription is answered with snapshots. The reading and writing of
-- JSON and the answers of the HTTP interface are parameters.
pub mod Recipients
pub mod Snapshots
pub mod Served
use Prim.Native.String.{◌++◌}
use wup_demo.Prelude.{
  ℤ, ℕ, Eq, String, str_eq, Bool, true, false, ◌||◌, Option, none, some, List, [], ◌∷◌, map, keep,
  ◌≡◌, if◌then◌else◌,
}
use wup_demo.DashMap.{DashMaps}
use wup_demo.HashMap
use wup_demo.Schema.{AggregatedPriceChangeEvent}
use wup_demo.Text.{split, contains_char}
use wup_demo.Subscription.{build_subject}
use wup_demo.Registry.{GatewayError, ClientRegistry, ClientState}
use wup_demo.Registry.Routing.{get_matching_subscribers}
use wup_demo.Gateway.{
  ServerMessage, PriceChangeData, from_event, OrderbookHttpResponse, to_orderbook_data,
}

pub record IdExtractor : Type 0 where
  pub market_id : String
  pub asset_id : String

-- `serde_json` at the types of the router: a struct that names two fields of an event reads them as
-- the whole event does, since fields that a struct does not name are passed over.
pub record Wire : Type 1 where
  pub Payload : Type 0
  pub ids_from_slice : Payload → Option IdExtractor
  pub event_from_slice : Payload → Option AggregatedPriceChangeEvent
  pub to_string : ServerMessage → Option String
  pub ids-event :
      (payload : Payload) (event : AggregatedPriceChangeEvent)
      → event_from_slice payload ≡ some event
      → ids_from_slice payload
        ≡ some (record { market_id = event.market_id; asset_id = event.asset_id })

pub record RouterConfig : Type 0 where
  pub nats_subject : String
  pub orderbook_service_url : String

abbrev pub default_config : RouterConfig
default_config = record {
  nats_subject = "orderbook.changes.>";
  orderbook_service_url = "http://localhost:8080";
}

-- The texts that were sent to clients, and whether the handler returns without an error.
pub record Routed (ClientId : Type 0) : Type 0 where
  pub sent : List (ClientId × String)
  pub is_ok : Bool

-- The loop over the clients: one whose channel is full is passed over.
unfoldable pub send_to_all :
    {ClientId : Type 0} → (ClientId → Bool) → String → List ClientId → List (ClientId × String)
send_to_all accepts json ids = map (λ id. (id, json)) (keep accepts ids)

module _ ⦃J : Wire⦄ where
  unfoldable pub extract_ids_fast : J.Payload → Option (String × String)
  extract_ids_fast payload = elim (J.ids_from_slice payload) [
    | none ↦ none
    | some e ↦ some (e.market_id, e.asset_id)
  ]

  abbrev ids_of_event : Option AggregatedPriceChangeEvent → Option (String × String)
  ids_of_event none = none
  ids_of_event (some change) = some (change.market_id, change.asset_id)

  -- The identifiers of a payload, by the fast way or else by the full one.
  unfoldable pub payload_ids : J.Payload → Option (String × String)
  payload_ids payload = elim (extract_ids_fast payload) [
    | some ids ↦ some ids
    | none ↦ ids_of_event (J.event_from_slice payload)
  ]

  module _ {ClientId : Type 0} where
    abbrev pub failed : Routed ClientId
    failed = record { sent = []; is_ok = false }

    abbrev pub deliver : (ClientId → Bool) → Option String → List ClientId → Routed ClientId
    deliver accepts none ids = failed
    deliver accepts (some json) ids = record { sent = send_to_all accepts json ids; is_ok = true }

    abbrev pub deliver_event :
        (ClientId → Bool) → Option AggregatedPriceChangeEvent → List ClientId → Routed ClientId
    deliver_event accepts none ids = failed
    deliver_event accepts (some change) ids =
        deliver accepts (J.to_string (ServerMessage.price_change (from_event change))) ids

    -- Nothing is read in full where nobody is subscribed.
    abbrev pub deliver_to : (ClientId → Bool) → J.Payload → List ClientId → Routed ClientId
    deliver_to accepts payload [] = record { sent = []; is_ok = true }
    deliver_to accepts payload (id ∷ ids) =
        deliver_event accepts (J.event_from_slice payload) (id ∷ ids)

    unfoldable pub handle_change :
        ⦃M : DashMaps⦄ ⦃i : Eq ClientId⦄
        → (ClientId → Bool)
        → J.Payload
        → ClientRegistry ClientId
        → Routed ClientId
    handle_change accepts payload reg = elim (payload_ids payload) [
      | none ↦ failed
      | some (market_id, asset_id) ↦
          deliver_to accepts payload
            (HashMap.keys (get_matching_subscribers (build_subject market_id asset_id) reg))
    ]

-- `ClientRegistry::broadcast` of client.rs: a message that cannot be written is sent to nobody.
module _ ⦃J : Wire⦄ ⦃M : DashMaps⦄ {ClientId : Type 0} ⦃i : Eq ClientId⦄ where
  abbrev broadcast_text :
      (ClientId → Bool) → Option String → List ClientId → List (ClientId × String)
  broadcast_text accepts none ids = []
  broadcast_text accepts (some json) ids = send_to_all accepts json ids

  unfoldable pub broadcast :
      (ClientId → Bool)
      → String
      → ServerMessage
      → ClientRegistry ClientId
      → List (ClientId × String)
  broadcast accepts subject msg reg =
      broadcast_text accepts (J.to_string msg) (HashMap.keys (get_matching_subscribers subject reg))

-- What a request to the HTTP interface comes back with: nothing, a status that is no success, or a
-- body, which may not be what was expected.
pub data Answer (A : Type 0) : Type 0 where
  unanswered refused : Answer A
  body : Option A → Answer A

pub record MarketOrderbooksHttpResponse : Type 0 where
  pub market_id : String
  pub asset_count : ℕ
  pub assets : List OrderbookHttpResponse

-- The HTTP interface of the orderbook service, by URL.
pub record HttpClient : Type 0 where
  pub get_orderbook : String → Answer OrderbookHttpResponse
  pub get_market : String → Answer MarketOrderbooksHttpResponse

-- The messages sent to the client, and the error that ended it.
pub record Sending : Type 0 where
  pub sent : List ServerMessage
  pub failure : Option GatewayError

abbrev pub nothing : Sending
nothing = record { sent = []; failure = none }

abbrev pub fails : GatewayError → Sending
fails e = record { sent = []; failure = some e }

abbrev sent_first : ServerMessage → Sending → Sending
sent_first m s = record s { sent = m ∷ s.sent }

-- `format!("{}/orderbook/{}/{}", ..)`
abbrev pub orderbook_url : RouterConfig → String → String → String
orderbook_url config market_id asset_id =
    config.orderbook_service_url ++ ("/orderbook/" ++ (market_id ++ String.◌∷◌ "/" asset_id))

module _ (accepts : ServerMessage → Bool) (now : ℤ) where
  -- `client.send(ServerMessage::Snapshot(..))?` for each book.
  unfoldable pub send_orderbooks : List OrderbookHttpResponse → Sending
  send_orderbooks [] = nothing
  send_orderbooks (orderbook ∷ orderbooks) =
      let m = ServerMessage.snapshot (to_orderbook_data now orderbook) in
      let rest = send_orderbooks orderbooks in
      if accepts m then sent_first m rest else fails GatewayError.channel_send

  abbrev pub answer_orderbook : Answer OrderbookHttpResponse → Sending
  answer_orderbook Answer.unanswered = fails GatewayError.http
  answer_orderbook Answer.refused = nothing
  answer_orderbook (Answer.body none) = fails GatewayError.http
  answer_orderbook (Answer.body (some orderbook)) = send_orderbooks (orderbook ∷ [])

  abbrev pub answer_market : Answer MarketOrderbooksHttpResponse → Sending
  answer_market Answer.unanswered = fails GatewayError.http
  answer_market Answer.refused = nothing
  answer_market (Answer.body none) = fails GatewayError.http
  answer_market (Answer.body (some response)) = send_orderbooks response.assets

  module _ (config : RouterConfig) (http_client : HttpClient) where
    unfoldable pub send_market_snapshots : String → Sending
    send_market_snapshots market_id =
        answer_market
          (http_client.get_market (config.orderbook_service_url ++ ("/orderbook/" ++ market_id)))

    -- From the test for other wildcards on.
    abbrev pub send_one : String → List String → Sending
    send_one subject parts =
        if contains_char b'*' subject || contains_char b'>' subject then nothing else elim parts [
          | market_id ∷ asset_id ∷ more ↦
              answer_orderbook (http_client.get_orderbook (orderbook_url config market_id asset_id))
          | _ ↦
              fails
                (GatewayError.invalid_subject ("Subject must have at least 2 parts: " ++ subject))
        ]

    abbrev pub send_parts : String → List String → Sending
    send_parts subject (market_id ∷ last ∷ []) =
        if str_eq last "*" || str_eq last ">"
        then send_market_snapshots market_id
        else send_one subject (market_id ∷ last ∷ [])
    send_parts subject parts = send_one subject parts

    unfoldable pub send_snapshot : String → Sending
    send_snapshot subject = send_parts subject (split subject)
