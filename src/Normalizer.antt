-- ===== src/Normalizer.antt =====
-- crates/normalizer/src/traits.rs and service.rs: the interface of an exchange adapter and the
-- service that is generic over it. Publishing is an input: whether a message can be serialized and
-- sent under its subject.
pub mod Json
pub mod Polymarket
pub mod Builder
use wup_demo.Prelude.{String, Bool, true, false, Option, none, some, List, [], ◌∷◌, ◌++◌}
use wup_demo.Text.{join}
use wup_demo.Schema.{NormalizedOrderbook}

pub record AdapterConfig : Type 0 where
  pub source_stream : String
  pub filter_subject : String
  pub dest_stream : String
  pub output_subject_prefix : String

-- The trait; the first argument of `parse_and_transform` is the clock's text.
pub record ExchangeAdapter : Type 0 where
  pub name : String
  pub filter_subject : String
  pub parse_and_transform : String → String → Option (List NormalizedOrderbook)
  pub build_output_subject : AdapterConfig → NormalizedOrderbook → String

unfoldable pub default_config : ExchangeAdapter → AdapterConfig
default_config adapter = record {
  source_stream = "MARKET_DATA";
  filter_subject = adapter.filter_subject;
  dest_stream = "NORMALIZED_DATA";
  output_subject_prefix = join ("normalized" ∷ adapter.name ∷ []);
}

-- What becomes of one message on its way out.
pub data Delivery : Type 0 where
  sent not_serialized not_sent : Delivery

-- The broker: the fate of a message under a subject.
abbrev pub Broker : Type 0
Broker = String → NormalizedOrderbook → Delivery

-- What was sent, with its subject.
abbrev pub Sent : Type 0
Sent = List (String × NormalizedOrderbook)

abbrev pub publish_then : String × NormalizedOrderbook → Sent × Bool → Delivery → Sent × Bool
publish_then at rest Delivery.sent = (at ∷ rest.0, rest.1)
publish_then at rest Delivery.not_serialized = ([], false)
publish_then at rest Delivery.not_sent = ([], false)

-- The loop of `process_message` with `publish_normalized(..).await?` in it: what was sent, and
-- whether all was.
unfoldable pub publish_all :
    ExchangeAdapter → AdapterConfig → Broker → List NormalizedOrderbook → Sent × Bool
publish_all adapter config broker [] = ([], true)
publish_all adapter config broker (msg ∷ msgs) =
    let subject = adapter.build_output_subject config msg in
    publish_then (subject, msg) (publish_all adapter config broker msgs) (broker subject msg)

-- A message that cannot be parsed is dropped without an error.
unfoldable pub process_message :
    ExchangeAdapter → AdapterConfig → Broker → String → String → Sent × Bool
process_message adapter config broker now payload = elim (adapter.parse_and_transform now payload) [
  | none ↦ ([], true)
  | some msgs ↦ publish_all adapter config broker msgs
]

-- What the loop of the service waits for: a shutdown, a message with its payload, the end of the
-- subscription.
pub data Event : Type 0 where
  shutdown : Event
  message : (now : String) (payload : String) → Event
  ended : Event

-- The loop of `run`: what was sent, until an event stops it. An error of one message is counted,
-- and the loop goes on.
unfoldable pub run : ExchangeAdapter → AdapterConfig → Broker → List Event → Sent
run adapter config broker [] = []
run adapter config broker (Event.shutdown ∷ events) = []
run adapter config broker (Event.ended ∷ events) = []
run adapter config broker (Event.message now payload ∷ events) =
    (process_message adapter config broker now payload).0 ++ run adapter config broker events
