-- ===== src/Example/Fanout.antt =====
-- The theorems on the change router, at the registry of two clients and a change that can be read.
use wup_demo.Prelude.{
  String, string_eq, pos, true, Option, none, some, [], ◌≡◌, ◌↔◌, refl, str_eq, if◌then◌else◌,
}
use wup_demo.Example.Clients.{names, subscribed_once, subscribed_once-Reachable}
use wup_demo.DashMap.Local.{local_maps}
use wup_demo.Schema.{AggregatedPriceChangeEvent}
use wup_demo.Text.{split}
use wup_demo.Subscription.{build_subject, matches_subject}
use wup_demo.Registry.Routing.{has_id}
use wup_demo.Registry.Consistency.{subscribed}
use wup_demo.Registry.Reachable.{Reachable-IsConsistent}
use wup_demo.Gateway.Router.{Wire, IdExtractor, handle_change, HttpClient, Answer}
use wup_demo.Gateway.Router.Recipients.{receivers, receivers-handle_change}
use wup_demo.Example.Tally.{tally}
use wup_demo.Example.Stores.{history}
use wup_demo.Store.{OrderbookStore, new}
use wup_demo.Store.Replay.{run}
use wup_demo.Store.Listing.{get_market}
use wup_demo.Store.Api.{get_orderbook_handler, get_market_handler}
use wup_demo.Gateway.Router.Served.{received, received_market}

abbrev ids : Option AggregatedPriceChangeEvent → Option IdExtractor
ids none = none
ids (some e) = some (record { market_id = e.market_id; asset_id = e.asset_id })

instance abbrev wire : Wire
wire = record {
  Payload = AggregatedPriceChangeEvent;
  ids_from_slice = λ e. ids (some e);
  event_from_slice = λ e. some e;
  to_string = λ m. some "{..}";
  ids-event = λ payload event e i. ids (e i);
}

abbrev event : AggregatedPriceChangeEvent
event = record { market_id = "market"; asset_id = "other"; changes = []; timestamp_us = pos 7 }

receivers-handle_change_example :
    ((handle_change (λ c. true) event subscribed_once).is_ok ≡ true)
    × ((has_id "ann" (receivers (handle_change (λ c. true) event subscribed_once).sent) ≡ true) ↔ (
        (◌≡◌ true true)
        × ((p : String) × ((subscribed "ann" p subscribed_once ≡ true)
              × (matches_subject p (split (build_subject "market" "other")) ≡ true)))))
receivers-handle_change_example =
    receivers-handle_change (λ c. true) event event "{..}" subscribed_once "ann" refl refl
      (Reachable-IsConsistent subscribed_once-Reachable)

abbrev store : OrderbookStore
store = run history new

-- The interface of that store, at two of its addresses.
abbrev served : HttpClient
served = record {
  get_orderbook = λ url.
      if str_eq url "http://localhost:8080/orderbook/market/token"
      then received (get_orderbook_handler "market" "token" none store)
      else Answer.unanswered;
  get_market = λ url.
      if str_eq url "http://localhost:8080/orderbook/market"
      then received_market (get_market_handler "market" none store)
      else Answer.unanswered;
}
