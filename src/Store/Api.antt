-- ===== src/Store/Api.antt =====
-- The handlers of crates/orderbook_service/src/api.rs. Decoding a request and encoding an answer are
-- done by `axum`.
use Prim.Native.String.{◌++◌}
use wup_demo.Prelude.{ℕ, String, string_eq, Option, none, some}
use wup_demo.Decimal.{Decimals}
use wup_demo.DashMap.{DashMaps}
use wup_demo.Reply.{Reply}
use wup_demo.Response.{OrderbookResponse, BboResponse}
use wup_demo.Store.{OrderbookStore, get, get_bbo}
use wup_demo.Store.Listing.{
  MarketOrderbooksResponse, MarketBbosResponse, StoreStats, AllOrderbooksResponse, get_market,
  get_market_bbos, stats, list_all,
}

pub data ApiError : Type 0 where
  not_found internal_error : String → ApiError

unfoldable pub into_response : {A : Type 0} → ApiError → Reply A
into_response (ApiError.not_found msg) = Reply.error 404 msg
into_response (ApiError.internal_error msg) = Reply.error 500 msg

abbrev pub or_not_found : {A : Type 0} → String → Option A → Reply A
or_not_found msg none = into_response (ApiError.not_found msg)
or_not_found msg (some response) = Reply.ok response

abbrev pub no_market : String → String
no_market market_id = "Market '" ++ (market_id ++ "' not found")

abbrev pub no_asset : String → String → String → String
no_asset what market_id asset_id =
    what ++ (" for market '" ++ (market_id ++ ("', asset '" ++ (asset_id ++ "' not found"))))

-- The paths that the routes `/orderbook/{market_id}` and `/orderbook/{market_id}/{asset_id}` match.
abbrev pub market_path : String → String
market_path market_id = "/orderbook/" ++ market_id

abbrev pub orderbook_path : String → String → String
orderbook_path market_id asset_id = "/orderbook/" ++ (market_id ++ String.◌∷◌ "/" asset_id)

module _ ⦃D : Decimals⦄ ⦃M : DashMaps⦄ where
  unfoldable pub stats_handler : OrderbookStore → Reply StoreStats
  stats_handler store = Reply.ok (stats store)

  unfoldable pub list_all_handler : OrderbookStore → Reply AllOrderbooksResponse
  list_all_handler store = Reply.ok (list_all store)

  unfoldable pub get_market_handler :
      String → Option ℕ → OrderbookStore → Reply MarketOrderbooksResponse
  get_market_handler market_id depth store =
      or_not_found (no_market market_id) (get_market market_id depth store)

  unfoldable pub get_orderbook_handler :
      String → String → Option ℕ → OrderbookStore → Reply OrderbookResponse
  get_orderbook_handler market_id asset_id depth store =
      or_not_found (no_asset "Orderbook" market_id asset_id) (get market_id asset_id depth store)

  unfoldable pub get_market_bbos_handler : String → OrderbookStore → Reply MarketBbosResponse
  get_market_bbos_handler market_id store =
      or_not_found (no_market market_id) (get_market_bbos market_id store)

  unfoldable pub get_bbo_handler : String → String → OrderbookStore → Reply BboResponse
  get_bbo_handler market_id asset_id store =
      or_not_found (no_asset "BBO" market_id asset_id) (get_bbo market_id asset_id store)
