-- ===== src/Worker.antt =====
-- `PolymarketHandler` of crates/polymarket/src/handler.rs: what a worker is subscribed to, what it
-- tells the exchange, and how it publishes a message. The texts of the messages to the exchange are
-- those of crates/external_services/src/polymarket/websocket.rs; how their fields are written as
-- JSON is a parameter. A message counts from where its time of arrival has been put into it.
pub mod Commands
pub mod Connection
pub mod Backoff
pub mod Stamp
pub mod Inline
use wup_demo.Prelude.{
  String, string_eq, Bool, true, false, not, Option, none, some, List, [], ◌∷◌, ◌++◌, map, keep,
  contains, if◌then◌else◌,
}
use wup_demo.HashMap
use wup_demo.HashMap.{HashMap}
use wup_demo.Schema.{NormalizedOrderbook}
use wup_demo.Commands.{ControlCommand}
use wup_demo.Events.{TokenMapping}
use wup_demo.Normalizer.{AdapterConfig, ExchangeAdapter, Broker, Delivery, Sent}

pub record SubscriptionMessage : Type 0 where
  pub msg_type : String
  pub assets_ids : List String

pub record UnsubscriptionMessage : Type 0 where
  pub msg_type : String
  pub assets_ids : List String

-- The text of an object with the fields `type` and `assets_ids`, which both structs have.
pub record Writer : Type 0 where
  pub object : String → List String → String

module _ ⦃W : Writer⦄ where
  unfoldable pub build_subscription_message : List String → String
  build_subscription_message token_ids =
      let msg : SubscriptionMessage = record { msg_type = "market"; assets_ids = token_ids } in
      W.object msg.msg_type msg.assets_ids

  unfoldable pub build_unsubscription_message : List String → String
  build_unsubscription_message token_ids =
      let msg : UnsubscriptionMessage = record { msg_type = "market"; assets_ids = token_ids } in
      W.object msg.msg_type msg.assets_ids

pub record PolymarketHandler : Type 0 where
  pub token_mappings : HashMap String (String × String)
  pub subscribed_ids : List String
  pub adapter_config : AdapterConfig

abbrev pub handler_config : AdapterConfig
handler_config = record {
  source_stream = "";
  filter_subject = "";
  dest_stream = "POLYMARKET_NORMALIZED";
  output_subject_prefix = "normalized.polymarket";
}

unfoldable pub new : List String → PolymarketHandler
new initial_ids = record {
  token_mappings = [];
  subscribed_ids = initial_ids;
  adapter_config = handler_config;
}

-- The loop of `new_with_mappings`.
unfoldable pub map_tokens :
    List TokenMapping → HashMap String (String × String) → HashMap String (String × String)
map_tokens [] m = m
map_tokens (mapping ∷ mappings) m =
    map_tokens mappings
      (HashMap.insert mapping.clob_token_id (mapping.event_slug, mapping.market_id) m)

unfoldable pub new_with_mappings : List TokenMapping → PolymarketHandler
new_with_mappings mappings = record {
  token_mappings = map_tokens mappings [];
  subscribed_ids = map (λ (m : TokenMapping). m.clob_token_id) mappings;
  adapter_config = handler_config;
}

-- `if !subscribed.contains(&id) { subscribed.push(id) }`
abbrev pub push_new : List String → String → List String
push_new ids id = if contains ids id then ids else ids ++ id ∷ []

unfoldable pub push_all : List String → List String → List String
push_all [] ids = ids
push_all (id ∷ more) ids = push_all more (push_new ids id)

unfoldable pub add_subscriptions : List String → PolymarketHandler → PolymarketHandler
add_subscriptions ids h = record h { subscribed_ids = push_all ids h.subscribed_ids }

unfoldable pub add_mappings : List TokenMapping → PolymarketHandler → PolymarketHandler
add_mappings mappings h = record h {
  subscribed_ids = push_all (map (λ (m : TokenMapping). m.clob_token_id) mappings) h.subscribed_ids;
  token_mappings = map_tokens mappings h.token_mappings;
}

unfoldable pub forget_tokens :
    List String → HashMap String (String × String) → HashMap String (String × String)
forget_tokens [] m = m
forget_tokens (id ∷ ids) m = forget_tokens ids (HashMap.remove id m)

unfoldable pub remove_subscriptions : List String → PolymarketHandler → PolymarketHandler
remove_subscriptions ids h = record h {
  subscribed_ids = keep (λ id. not (contains ids id)) h.subscribed_ids;
  token_mappings = forget_tokens ids h.token_mappings;
}

module _ ⦃W : Writer⦄ where
  -- What is sent on a new connection.
  unfoldable pub on_connect_message : PolymarketHandler → Option String
  on_connect_message h = elim h.subscribed_ids [
    | [] ↦ none
    | id ∷ ids ↦ some (build_subscription_message (id ∷ ids))
  ]

  unfoldable pub handle_command :
      ControlCommand → PolymarketHandler → PolymarketHandler × Option String
  handle_command (ControlCommand.subscribe ids) h =
      (add_subscriptions ids h, some (build_subscription_message ids))
  handle_command (ControlCommand.unsubscribe ids) h =
      (remove_subscriptions ids h, some (build_unsubscription_message ids))
  handle_command ControlCommand.shutdown h = (h, none)

abbrev pub publish_then : String × NormalizedOrderbook → Sent × Bool → Delivery → Sent × Bool
publish_then at rest Delivery.sent = (at ∷ rest.0, rest.1)
publish_then at rest Delivery.not_serialized = rest
publish_then at rest Delivery.not_sent = ([], false)

-- The loop of `on_message`: one that cannot be serialized is skipped, one that cannot be sent ends it.
unfoldable pub publish_each :
    ExchangeAdapter → AdapterConfig → Broker → List NormalizedOrderbook → Sent × Bool
publish_each adapter config broker [] = ([], true)
publish_each adapter config broker (msg ∷ msgs) =
    let subject = adapter.build_output_subject config msg in
    publish_then (subject, msg) (publish_each adapter config broker msgs) (broker subject msg)

-- `on_message` from where the time of arrival is in the text: what was published, and whether the
-- handler returns without an error.
unfoldable pub on_message :
    ExchangeAdapter → Broker → String → String → PolymarketHandler → Sent × Bool
on_message adapter broker now payload h = elim (adapter.parse_and_transform now payload) [
  | none ↦ ([], true)
  | some msgs ↦ publish_each adapter h.adapter_config broker msgs
]
