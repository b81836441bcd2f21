-- ===== src/Worker/Inline.antt =====
-- The worker normalizes by itself; what it publishes is what the normalizer service would.
use wup_demo.Prelude.{
  String, Bool, true, Option, none, some, List, [], ◌∷◌, ◌≡◌, ◌≢◌, refl, ◌∙◌, ap,
}
use wup_demo.Text.{join}
use wup_demo.Schema.{NormalizedOrderbook}
use wup_demo.Normalizer
use wup_demo.Normalizer.{
  AdapterConfig, ExchangeAdapter, Broker, Delivery, Sent, publish_all, process_message,
  default_config,
}
use wup_demo.Normalizer.Json.{Json}
use wup_demo.Normalizer.Polymarket.{
  Decoders, parse_and_transform, polymarket_adapter, build_output_subject,
}
use wup_demo.Events.{TokenMapping}
use wup_demo.Commands.{ControlCommand}
use wup_demo.Aggregator
use wup_demo.Worker.Commands.{handle_all}
use wup_demo.Worker.{
  Writer, handle_command, add_subscriptions, remove_subscriptions, PolymarketHandler, new,
  new_with_mappings, publish_each, on_message, handler_config, publish_then,
}

-- Every message can be serialized.
abbrev pub Serializes : Broker → Type 0
Serializes broker =
    (subject : String) (msg : NormalizedOrderbook) → broker subject msg ≢ Delivery.not_serialized

module _ ⦃J : Json⦄ (d : Decoders) (broker : Broker) (all : Serializes broker) where
  abbrev adapter : ExchangeAdapter
  adapter = polymarket_adapter d

  same_step :
      (at : String × NormalizedOrderbook) (rest : Sent × Bool) (x : Delivery)
      → x ≢ Delivery.not_serialized
      → publish_then at rest x ≡ Normalizer.publish_then at rest x
  same_step at rest Delivery.sent h = refl
  same_step at rest Delivery.not_serialized h = absurd (h refl)
  same_step at rest Delivery.not_sent h = refl

  publish_each-publish_all :
      (msgs : List NormalizedOrderbook)
      → publish_each adapter handler_config broker msgs
        ≡ publish_all adapter (default_config adapter) broker msgs
  unfolding publish_each publish_all build_output_subject default_config join
  publish_each-publish_all [] = refl
  publish_each-publish_all (msg ∷ msgs) =
      let subject = build_output_subject handler_config msg in
      let fate = broker subject msg in
      same_step (subject, msg) _ fate (all subject msg)
      ∙ ap (λ rest. Normalizer.publish_then (subject, msg) rest fate)
          (publish_each-publish_all msgs)

  same_outcome :
      (config : AdapterConfig) (read : Option (List NormalizedOrderbook))
      → config ≡ handler_config
      → (elim read as (λ _. Sent × Bool) [
        | none ↦ ([], true)
        | some msgs ↦ publish_each adapter config broker msgs
      ])
        ≡ (elim read as (λ _. Sent × Bool) [
          | none ↦ ([], true)
          | some msgs ↦ publish_all adapter (default_config adapter) broker msgs
        ])
  same_outcome config none e = refl
  same_outcome config (some msgs) e =
      ap (λ c. publish_each adapter c broker msgs) e ∙ publish_each-publish_all msgs

  on_message-process_message :
      (now payload : String) (p : PolymarketHandler)
      → p.adapter_config ≡ handler_config
      → on_message adapter broker now payload p
        ≡ process_message adapter (default_config adapter) broker now payload
  unfolding on_message process_message
  on_message-process_message now payload p =
      same_outcome p.adapter_config (parse_and_transform d now payload)

module _ ⦃W : Writer⦄ where
  config-handle_command :
      (cmd : ControlCommand) (p : PolymarketHandler)
      → (handle_command cmd p).0.adapter_config ≡ p.adapter_config
  unfolding handle_command add_subscriptions remove_subscriptions
  config-handle_command (ControlCommand.subscribe ids) p = refl
  config-handle_command (ControlCommand.unsubscribe ids) p = refl
  config-handle_command ControlCommand.shutdown p = refl

  config-handle_all :
      (log : Aggregator.Sent) (p : PolymarketHandler)
      → (handle_all log p).adapter_config ≡ p.adapter_config
  unfolding handle_all
  config-handle_all [] p = refl
  config-handle_all ((w, cmd) ∷ log) p =
      config-handle_all log (handle_command cmd p).0 ∙ config-handle_command cmd p

  -- A worker that normalizes a message by itself, with mappings or without and whatever commands it
  -- has handled since its start, publishes what the normalizer service with its default configuration
  -- publishes for the same payload, under the same subjects and with the same outcome, if every
  -- message can be serialized.
  pub on_message-inline :
      ⦃J : Json⦄ (d : Decoders) (broker : Broker) (now payload : String) (ids : List String)
      (mappings : List TokenMapping) (log : Aggregator.Sent)
      → Serializes broker
      → (on_message
            (polymarket_adapter d)
            broker
            now
            payload
            (handle_all log (new_with_mappings mappings))
          ≡ process_message
              (polymarket_adapter d)
              (default_config (polymarket_adapter d))
              broker
              now
              payload)
        × (on_message (polymarket_adapter d) broker now payload (handle_all log (new ids))
            ≡ process_message
                (polymarket_adapter d)
                (default_config (polymarket_adapter d))
                broker
                now
                payload)
  unfolding new new_with_mappings
  on_message-inline d broker now payload ids mappings log all = (
    on_message-process_message d broker all now payload
        (handle_all log (new_with_mappings mappings))
        (config-handle_all log (new_with_mappings mappings)),
    on_message-process_message d broker all now payload (handle_all log (new ids))
        (config-handle_all log (new ids)),
  )
