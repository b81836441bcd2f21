-- ===== src/Example/Orders.antt =====
-- The theorems on the cached prices and on the router, at two platforms and one order.
use wup_demo.Prelude.{
  ◌-◌, ℕ, String, string_eq, pair_eq, true, Option, none, some, List, [], ◌∷◌, ◌≡◌, refl, arith,
}
use wup_demo.Example.Tally.{tally, read}
use wup_demo.DashMap.Local.{local_maps, firsts}
use wup_demo.HashMap
use wup_demo.Executor.{OrderSide, OrderType, OrderStatus, OrderRequest, OrderResponse, ok}
use wup_demo.Executor.BboCache
use wup_demo.Executor.BboCache.{
  BboCache, CachedBbo, PlatformSize, PriceChange, OrderbookChange, change_side, change_best,
  remove_price, handle_changes, handle_change, empty_bbo, higher, lower,
}
use wup_demo.Executor.Extremes.{IsBest}
use wup_demo.Executor.SmartRouter
use wup_demo.Executor.SmartRouter.{Executor, SmartRouter, submit_order, routed, register}
use wup_demo.Executor.Routes.{NoBetter, quotes, cached, Routed, submit_order-IsBest}
use wup_demo.Executor.Polymarket.{OrderStatusType, SdkOrder, open_order, from_open_order}
use wup_demo.Executor.Conversions.{remaining-open_order}
use wup_demo.Executor.Cached.{StillBids, handle_changes-BidsFrom}

abbrev quoted : CachedBbo
quoted = record {
  best_bids = ("kalshi", 3) ∷ [];
  best_asks = ("polymarket", 5) ∷ ("kalshi", 4) ∷ [];
}

abbrev quoted_cache : BboCache
quoted_cache = record { cache = (("market", "token"), quoted) ∷ [] }

never_returns : change_side "buy" "kalshi" 3 0 quoted ≡ none
unfolding change_side change_best remove_price HashMap.get
never_returns = refl

returns : change_side "buy" "kalshi" 4 0 quoted ≡ some quoted
unfolding change_side change_best remove_price HashMap.get
returns = refl

-- Two changes as they are published: a level of two platforms, then one that nobody is left at.
abbrev changes : List PriceChange
changes =
    record {
      side = "buy";
      price = "||";
      total_size = "|||";
      platforms =
          record { platform = "kalshi"; size = "|" }
          ∷ record { platform = "polymarket"; size = "||" }
          ∷ [];
    }
    ∷ record { side = "buy"; price = "|||"; total_size = ""; platforms = [] }
    ∷ []

handle_changes-BidsFrom_example : StillBids "kalshi" 3 (handle_changes changes quoted)
unfolding read HashMap.get
handle_changes-BidsFrom_example =
    handle_changes-BidsFrom "kalshi" 3 changes quoted
      (((λ size e. ground (arith, e)), ((λ size e. ground (arith, e)), tt)), (tt, tt))
      (3, (refl, omega arith))

-- A platform that counts the orders it fills.
abbrev filled : OrderRequest → OrderResponse
filled req = record {
  order_id = "1";
  platform = "kalshi";
  status = OrderStatus.filled;
  filled_size = req.size;
  remaining_size = none;
  routed_price = none;
}

abbrev desk : String → Executor ℕ
desk name = record {
  platform_name = name;
  submit_order = λ req w. (ok (filled req), 1);
  cancel_order = λ order_id w. (ok tt, w);
  get_open_orders = λ w. (ok [], w);
  get_order_status = λ order_id w. (ok OrderStatus.filled, w);
  health_check = λ w. (ok true, w);
}

abbrev router_of : String → SmartRouter ℕ
router_of name = register (desk name) (SmartRouter.new quoted_cache)

abbrev buy_one : OrderRequest
buy_one = record {
  market_id = "market";
  token_id = "token";
  side = OrderSide.buy;
  order_type = OrderType.market;
  platform = none;
  price = none;
  size = some 1;
  amount = some 1;
  expiration = none;
  post_only = none;
  tick_size = none;
}

submit_order-IsBest_example :
    (best : Option (String × ℕ)) × IsBest
      (NoBetter OrderSide.buy)
      (quotes OrderSide.buy (cached buy_one (router_of "kalshi")))
      best
    × Routed buy_one (router_of "kalshi") 0 best (submit_order buy_one (router_of "kalshi") 0)
submit_order-IsBest_example = submit_order-IsBest buy_one (router_of "kalshi") 0 refl

routed_to_kalshi : submit_order buy_one (router_of "kalshi") 0 ≡ (
  ok (record (filled (record buy_one { platform = some "kalshi" })) { routed_price = some 4 }),
  1,
)
unfolding submit_order SmartRouter.submit_smart SmartRouter.find_best_platform
    SmartRouter.best_quote SmartRouter.get_executor SmartRouter.register BboCache.best_ask
    BboCache.min_by_value BboCache.min_from HashMap.get HashMap.insert HashMap.contains_key firsts
routed_to_kalshi = refl

-- Ten ordered, three of them matched.
abbrev part_filled : SdkOrder
part_filled = record {
  id = "1";
  market = "market";
  asset_id = "token";
  side = "Buy";
  price = 4;
  original_size = 10;
  size_matched = 3;
  status = OrderStatusType.live;
}

abbrev response : OrderResponse
response = from_open_order (open_order part_filled)

remaining-open_order_example :
    (matched : ℕ) × ((original : ℕ) × ((matched ≡ 3)
        × ((original ≡ 10)
            × ((response.remaining_size ≡ some matched)
                × (response.filled_size ≡ some (original - matched))))))
remaining-open_order_example = remaining-open_order part_filled
