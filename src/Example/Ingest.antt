-- ===== src/Example/Ingest.antt =====
-- The theorems on the normalizer, at a message that changes two assets and at a batch with one
-- element that cannot be decoded.
use wup_demo.Prelude.{
  ℕ, String, string_eq, pos, true, Option, none, some, List, [], ◌∷◌, ◌≡◌, ◌≢◌, refl, keep, zero,
  suc, ◌==◌, if◌then◌else◌,
}
use wup_demo.Example.Tally.{tally}
use wup_demo.Example.Stores.{history}
use wup_demo.DashMap.Local.{local_maps}
use wup_demo.HashMap
use wup_demo.Orderbook.{Orderbook}
use wup_demo.Store.{OrderbookStore, new, find_book}
use wup_demo.Store.Replay.{run, replayed, is_for}
use wup_demo.Normalizer.{AdapterConfig, Delivery, process_message, default_config}
use wup_demo.Schema.{NormalizedOrderbook}
use wup_demo.Events.{TokenMapping}
use wup_demo.Aggregator
use wup_demo.Commands.{ControlCommand}
use wup_demo.Worker
use wup_demo.Worker.{Writer, on_message}
use wup_demo.Worker.Commands.{handle_all}
use wup_demo.Worker.Inline.{on_message-inline}
use wup_demo.Normalizer.Json.{Json}
use wup_demo.Normalizer.Polymarket.{
  RawPriceChange, RawPriceChangeMessage, Decoders, parse_value, event_type_of, polymarket_adapter,
  transform_price_change,
}
use wup_demo.Normalizer.Polymarket.Groups.{
  is_of, last_change, delta_for, keep-transform_price_change,
}
use wup_demo.Normalizer.Polymarket.Books.{find_book-price_change, exchange_best-price_change}
use wup_demo.Normalizer.Polymarket.Parsing.{batch_dropped}

abbrev change : String → String → String → RawPriceChange
change asset_id side best_bid = record {
  asset_id = asset_id;
  price = "|||";
  size = "||";
  side = side;
  hash = "";
  best_bid = best_bid;
  best_ask = "||||";
}

abbrev message : RawPriceChangeMessage
message = record {
  event_type = "price_change";
  market = "market";
  price_changes =
      change "token" "BUY" "|||" ∷ change "other" "SELL" "||" ∷ change "token" "SELL" "" ∷ [];
  timestamp = "30";
  received_at = pos 32;
}

abbrev store : OrderbookStore
store = run history new

keep-transform_price_change_example :
    keep (is_for "market" "token") (transform_price_change "now" message)
    ≡ delta_for message "now" "token" (keep (is_of "token") message.price_changes)
keep-transform_price_change_example = keep-transform_price_change message "now" "token"

find_book-price_change_example :
    find_book "market" "token" (run (transform_price_change "now" message) store)
    ≡ replayed
        (delta_for message "now" "token" (keep (is_of "token") message.price_changes))
        (find_book "market" "token" store)
find_book-price_change_example = find_book-price_change message "now" "token" store

-- The last change of the asset comes without a best bid.
abbrev named : List RawPriceChange
named = change "token" "SELL" "" ∷ []

exchange_best-price_change_example :
    (ob : Orderbook) × (find_book "market" "token"
        (run (transform_price_change "now" message) store)
      ≡ some ob)
    × (HashMap.get "polymarket" ob.exchange_best_bid
        ≡ some (last_change (change "token" "BUY" "|||") named).best_bid)
unfolding is_of
exchange_best-price_change_example =
    exchange_best-price_change message "now" "token" store (change "token" "BUY" "|||") named refl

-- A payload that is read as a list of a value without an event type and a book that is no book.
abbrev event_types : ℕ → Option String
event_types n = if n == 2 then some "book" else none

abbrev items : ℕ → Option (List ℕ)
items zero = some (1 ∷ 2 ∷ [])
items (suc n) = none

instance abbrev json : Json
json = record {
  Value = ℕ;
  from_str = λ s. some 0;
  get = λ key v. some v;
  as_str = event_types;
  as_array = items;
  number_to_string = λ v. none;
}

instance abbrev writer : Writer
writer = record { object = λ t ids. t }

abbrev decoders : Decoders
decoders = record { book_from_value = λ f g v. none; price_change_from_value = λ f g v. none }

abbrev config : AdapterConfig
config = record {
  source_stream = "";
  filter_subject = "";
  dest_stream = "";
  output_subject_prefix = "normalized.polymarket";
}

batch_dropped_example :
    process_message (polymarket_adapter decoders) config (λ subject msg. Delivery.sent) "now" "[..]"
    ≡ ([], true)
unfolding parse_value event_type_of
batch_dropped_example =
    batch_dropped decoders config (λ subject msg. Delivery.sent) "now" "[..]" 0 (1 ∷ []) [] 2 refl
      refl refl

sends : (subject : String) (msg : NormalizedOrderbook) → Delivery.sent ≢ Delivery.not_serialized
sends subject msg e = absurd (cc e)

abbrev handled : Aggregator.Sent
handled = ("w", ControlCommand.unsubscribe ("a" ∷ [])) ∷ []

abbrev mapping : TokenMapping
mapping = record { clob_token_id = "a"; market_id = "market"; event_slug = "slug" }

on_message-inline_example :
    (on_message
        (polymarket_adapter decoders)
        (λ subject msg. Delivery.sent)
        "now"
        "[..]"
        (handle_all handled (Worker.new_with_mappings (mapping ∷ [])))
      ≡ process_message
          (polymarket_adapter decoders)
          (default_config (polymarket_adapter decoders))
          (λ subject msg. Delivery.sent)
          "now"
          "[..]")
    × (on_message
          (polymarket_adapter decoders)
          (λ subject msg. Delivery.sent)
          "now"
          "[..]"
          (handle_all handled (Worker.new ("a" ∷ [])))
        ≡ process_message
            (polymarket_adapter decoders)
            (default_config (polymarket_adapter decoders))
            (λ subject msg. Delivery.sent)
            "now"
            "[..]")
on_message-inline_example =
    on_message-inline decoders (λ subject msg. Delivery.sent) "now" "[..]" ("a" ∷ []) (mapping ∷ [])
      handled sends
