-- ===== src/Executor/Routes.antt =====
-- Where the smart router sends an order.
use wup_demo.Prelude.{
  String, string_eq, pair_eq, Option, none, some, ◌≡◌, refl, sym, ap, Option-cases, inl, inr, subst,
}
use wup_demo.Decimal.{Decimals, Decimal}
use wup_demo.DashMap.{DashMaps, DashMap}
use wup_demo.HashMap
use wup_demo.Executor.{
  OrderSide, OrderRequest, OrderResponse, Result, ok, err, no_available_platform,
}
use wup_demo.Executor.BboCache
use wup_demo.Executor.BboCache.{BboCache, CachedBbo}
use wup_demo.Executor.Extremes.{
  IsBest, NotAbove, NotBelow, min_by_value-IsBest, max_by_value-IsBest,
}
use wup_demo.Executor.SmartRouter.{
  Executor, SmartRouter, get_executor, best_quote, find_best_platform, routed, submit_direct,
  submit_smart, submit_order,
}

module _ ⦃D : Decimals⦄ where
  -- No better price for a buy is a lower one, for a sell a higher one.
  abbrev pub NoBetter : OrderSide → Decimal → Decimal → Type 0
  NoBetter OrderSide.buy x y = NotAbove x y
  NoBetter OrderSide.sell x y = NotBelow x y

module _ ⦃D : Decimals⦄ ⦃M : DashMaps⦄ where
  -- The side of the cached prices that an order meets.
  abbrev pub opposite : OrderSide → CachedBbo → DashMap String Decimal
  opposite OrderSide.buy entry = entry.best_asks
  opposite OrderSide.sell entry = entry.best_bids

  -- The price that each platform is cached with.
  abbrev pub quotes : OrderSide → Option CachedBbo → String → Option Decimal
  quotes side none q = none
  quotes side (some entry) q = M.get q (opposite side entry)

module _ ⦃D : Decimals⦄ ⦃M : DashMaps⦄ {World : Type 0} where
  abbrev pub cached : OrderRequest → SmartRouter World → Option CachedBbo
  cached req router = M.get (req.market_id, req.token_id) router.bbo_cache.cache

  abbrev pub quote_for : OrderRequest → SmartRouter World → Option (String × Decimal)
  quote_for req router = best_quote req.market_id req.token_id req.side router

  best_quote-IsBest :
      (market_id asset_id : String) (side : OrderSide) (router : SmartRouter World)
      → IsBest
          (NoBetter side)
          (quotes side (M.get (market_id, asset_id) router.bbo_cache.cache))
          (best_quote market_id asset_id side router)
  unfolding best_quote BboCache.best_ask BboCache.best_bid
  best_quote-IsBest m a OrderSide.buy router =
      elim (Option-cases (M.get (m, a) router.bbo_cache.cache)) [
        | inl e ↦ rw (e, best_quote, BboCache.best_ask) (λ q. refl)
        | inr (entry, e) ↦
            rw (e, best_quote, BboCache.best_ask) (min_by_value-IsBest entry.best_asks)
      ]
  best_quote-IsBest m a OrderSide.sell router =
      elim (Option-cases (M.get (m, a) router.bbo_cache.cache)) [
        | inl e ↦ rw (e, best_quote, BboCache.best_bid) (λ q. refl)
        | inr (entry, e) ↦
            rw (e, best_quote, BboCache.best_bid) (max_by_value-IsBest entry.best_bids)
      ]

  no_platform :
      (req : OrderRequest) (router : SmartRouter World) (w : World)
      → req.platform ≡ none
      → submit_order req router w ≡ submit_smart req router w
  unfolding submit_order
  no_platform req router w direct = ap dispatch direct
    where
      dispatch : Option String → Result OrderResponse × World
      dispatch none = submit_smart req router w
      dispatch (some platform) = submit_direct platform req router w

  smart_found :
      (req : OrderRequest) (router : SmartRouter World) (w : World) (p : String) (x : Decimal)
      (executor : Executor World)
      → quote_for req router ≡ some (p, x)
      → get_executor p router ≡ some executor
      → submit_smart req router w
        ≡ routed x (executor.submit_order (record req { platform = some p }) w)
  unfolding submit_smart find_best_platform get_executor HashMap.contains_key
  smart_found req router w p x executor best found =
      rw (best, submit_smart, find_best_platform, found) (rw (found, get_executor))

  smart_unquoted :
      (req : OrderRequest) (router : SmartRouter World) (w : World)
      → quote_for req router ≡ none
      → submit_smart req router w ≡ (err no_available_platform, w)
  unfolding submit_smart find_best_platform
  smart_unquoted req router w e = rw (e, submit_smart, find_best_platform)

  smart_missing :
      (req : OrderRequest) (router : SmartRouter World) (w : World) (p : String) (x : Decimal)
      → quote_for req router ≡ some (p, x)
      → get_executor p router ≡ none
      → submit_smart req router w ≡ (err no_available_platform, w)
  unfolding submit_smart find_best_platform get_executor HashMap.contains_key
  smart_missing req router w p x best missing = rw (best, submit_smart, find_best_platform, missing)

  -- The answer of an executor, on which the price is said if it is a response.
  abbrev pub Handed : Decimal → Result OrderResponse × World → Result OrderResponse × World → Type 0
  Handed x (ok response, v) result = result ≡ (
    ok (record {
      order_id = response.order_id;
      platform = response.platform;
      status = response.status;
      filled_size = response.filled_size;
      remaining_size = response.remaining_size;
      routed_price = some x;
    }),
    v,
  )
  Handed x (err e, v) result = result ≡ (err e, v)

  -- What an order gets from the platform that is found for it, which may have no executor.
  abbrev pub Reached :
      OrderRequest
      → World
      → String
      → Decimal
      → Option (Executor World)
      → Result OrderResponse × World
      → Type 0
  Reached req w p x none result = result ≡ (err no_available_platform, w)
  Reached req w p x (some executor) result =
      Handed x (executor.submit_order (record req { platform = some p }) w) result

  abbrev pub Routed :
      OrderRequest
      → SmartRouter World
      → World
      → Option (String × Decimal)
      → Result OrderResponse × World
      → Type 0
  Routed req router w none result = result ≡ (err no_available_platform, w)
  Routed req router w (some (p, x)) result = Reached req w p x (get_executor p router) result

  routed-Handed :
      (x : Decimal) (answer result : Result OrderResponse × World)
      → result ≡ routed x answer
      → Handed x answer result
  routed-Handed x (ok response, v) result e = e
  routed-Handed x (err error, v) result e = e

  smart-Reached :
      (req : OrderRequest) (router : SmartRouter World) (w : World) (p : String) (x : Decimal)
      (o : Option (Executor World))
      → quote_for req router ≡ some (p, x)
      → get_executor p router ≡ o
      → Reached req w p x o (submit_smart req router w)
  smart-Reached req router w p x none best e = smart_missing req router w p x best e
  smart-Reached req router w p x (some executor) best e =
      routed-Handed x _ _ (smart_found req router w p x executor best e)

  smart-Routed :
      (req : OrderRequest) (router : SmartRouter World) (w : World)
      (best : Option (String × Decimal))
      → quote_for req router ≡ best
      → Routed req router w best (submit_smart req router w)
  smart-Routed req router w none e = smart_unquoted req router w e
  smart-Routed req router w (some (p, x)) e =
      smart-Reached req router w p x (get_executor p router) e refl

  -- An order that names no platform goes, with the name of the platform filled in, to one that is
  -- cached with the best price of all platforms, and a response says that price; an error is passed
  -- on. If that platform has no executor, or if no platform is cached with a price, the order is
  -- refused and the world left alone, whatever executors there are for other platforms.
  pub submit_order-IsBest :
      (req : OrderRequest) (router : SmartRouter World) (w : World)
      → req.platform ≡ none
      → (best : Option (String × Decimal)) × IsBest
          (NoBetter req.side)
          (quotes req.side (cached req router))
          best
        × Routed req router w best (submit_order req router w)
  submit_order-IsBest req router w direct = (
    quote_for req router,
    best_quote-IsBest req.market_id req.token_id req.side router,
    subst (Routed req router w (quote_for req router)) (sym (no_platform req router w direct))
        (smart-Routed req router w (quote_for req router) refl),
  )
