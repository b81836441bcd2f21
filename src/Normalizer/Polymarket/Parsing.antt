-- ===== src/Normalizer/Polymarket/Parsing.antt =====
-- What the service sends for a payload that it can parse in part only, and for one that it can
-- parse.
use wup_demo.Prelude.{
  String, Bool, true, false, none, some, List, [], ◌∷◌, ◌++◌, ◌≡◌, refl, map, arith,
}
use wup_demo.Schema.{NormalizedOrderbook}
use wup_demo.Normalizer.{
  AdapterConfig, ExchangeAdapter, Broker, Delivery, Sent, publish_all, publish_then,
  process_message,
}
use wup_demo.Normalizer.Json.{Json}
use wup_demo.Normalizer.Polymarket.{
  Decoders, parse_value, parse_values, parse_all, parse_and_transform, polymarket_adapter,
}

module _ ⦃J : Json⦄ where
  parse_values-none :
      (d : Decoders) (before after : List J.Value) (item : J.Value)
      → parse_value d item ≡ none
      → parse_values d (before ++ item ∷ after) ≡ none
  unfolding parse_values
  parse_values-none d [] after item h = rw (h, parse_values)
  parse_values-none d (v ∷ vs) after item h = ground (arith, parse_values-none d vs after item h)

  -- A payload that is an array with an element that cannot be decoded is dropped whole, without an
  -- error: nothing is sent for the elements beside it, whatever they are.
  pub batch_dropped :
      (d : Decoders) (config : AdapterConfig) (broker : Broker) (now payload : String)
      (value : J.Value) (before after : List J.Value) (item : J.Value)
      → J.from_str payload ≡ some value
      → J.as_array value ≡ some (before ++ item ∷ after)
      → parse_value d item ≡ none
      → process_message (polymarket_adapter d) config broker now payload ≡ ([], true)
  unfolding process_message parse_and_transform parse_all
  batch_dropped d config broker now payload value before after item parsed array bad = rw (
    parsed,
    process_message,
    parse_and_transform,
    parse_all,
    array,
    parse_values-none d before after item bad,
  )

-- Is the message sent?
abbrev pub is_sent : Delivery → Bool
is_sent Delivery.sent = true
is_sent Delivery.not_serialized = false
is_sent Delivery.not_sent = false

module _ {A : Type 0} where
  -- The items before the first that fails the test.
  abbrev pub take_while : (A → Bool) → List A → List A
  take_while p [] = []
  take_while p (x ∷ xs) = let rest = take_while p xs in elim (p x) [ true ↦ x ∷ rest | false ↦ [] ]

  abbrev pub all : (A → Bool) → List A → Bool
  all p [] = true
  all p (x ∷ xs) = let rest = all p xs in elim (p x) [ true ↦ rest | false ↦ false ]

module _ (adapter : ExchangeAdapter) (config : AdapterConfig) (broker : Broker) where
  abbrev pub addressed : NormalizedOrderbook → String × NormalizedOrderbook
  addressed msg = (adapter.build_output_subject config msg, msg)

  abbrev pub goes_out : String × NormalizedOrderbook → Bool
  goes_out (subject, msg) = is_sent (broker subject msg)

  -- One message before those that went out.
  one_more :
      (at : String × NormalizedOrderbook) (rest : Sent × Bool) (d : Delivery)
      → publish_then at rest d ≡ (
        elim (is_sent d) [ true ↦ at ∷ rest.0 | false ↦ [] ],
        elim (is_sent d) [ true ↦ rest.1 | false ↦ false ],
      )
  one_more at rest Delivery.sent = refl
  one_more at rest Delivery.not_serialized = refl
  one_more at rest Delivery.not_sent = refl

  -- Of the messages that a payload gives, those before the first that cannot be sent go out, each
  -- under its subject and in order; the service reports an error exactly if one of them cannot.
  pub publish_all-take_while :
      (msgs : List NormalizedOrderbook)
      → publish_all adapter config broker msgs
        ≡ (take_while goes_out (map addressed msgs), all goes_out (map addressed msgs))
  unfolding publish_all
  publish_all-take_while [] = refl
  publish_all-take_while (msg ∷ msgs) =
      let subject = adapter.build_output_subject config msg in
      rw (publish_all-take_while msgs) (one_more (subject, msg) _ (broker subject msg))
