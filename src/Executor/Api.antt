-- ===== src/Executor/Api.antt =====
-- The handlers of crates/executor/src/api.rs. How an error is printed is a parameter.
use wup_demo.Prelude.{
  ℕ, String, string_eq, pair_eq, Bool, true, false, ◌&&◌, Option, none, some, List, length, ◌≡◌,
  refl, ap, if◌then◌else◌,
}
use wup_demo.Decimal.{Decimals, Decimal, lt}
use wup_demo.DashMap.{DashMaps}
use wup_demo.HashMap.{HashMap}
use wup_demo.Executor.{OrderSide, OrderRequest, OrderResponse, Error, Result, ok, err}
use wup_demo.Executor.SmartRouter.{
  Executor, SmartRouter, get_executor, submit_direct, submit_order, cancel_order, get_open_orders,
  health_check,
}

pub record HealthResponse : Type 0 where
  pub status : String
  pub platforms : HashMap String Bool
  pub cached_markets : ℕ

pub record ErrorResponse : Type 0 where
  pub error : String
  pub code : String

-- A value with the status 200, or an error with the status 400.
pub data Answer (A : Type 0) : Type 0 where
  accepted : A → Answer A
  bad_request : ErrorResponse → Answer A

pub record CancelResponse : Type 0 where
  pub status : String
  pub order_id : String

abbrev pub is_buy : OrderSide → Bool
is_buy OrderSide.buy = true
is_buy OrderSide.sell = false

module _ ⦃D : Decimals⦄ where
  -- `unwrap_or_default()`
  abbrev pub or_zero : Option Decimal → Decimal
  or_zero none = D.zero
  or_zero (some d) = d

  -- The limit on a buy.
  unfoldable pub is_too_large : OrderRequest → Bool
  is_too_large req = is_buy req.side && lt (D.from_ℕ 5) (or_zero req.amount)

abbrev pub too_large : ErrorResponse
too_large = record { error = "Amount must be less than 5"; code = "INVALID_AMOUNT" }

module _ ⦃D : Decimals⦄ ⦃M : DashMaps⦄ {World : Type 0} (to_string : Error → String) where
  -- The `match` on a result that every handler ends with, with its code.
  abbrev pub answer : {A : Type 0} → String → Result A × World → Answer A × World
  answer code (ok a, w) = (Answer.accepted a, w)
  answer code (err e, w) = (Answer.bad_request (record { error = to_string e; code = code }), w)

  unfoldable pub smart_order_handler :
      OrderRequest → SmartRouter World → World → Answer OrderResponse × World
  smart_order_handler req router w =
      if is_too_large req
      then (Answer.bad_request too_large, w)
      else answer "ORDER_FAILED" (submit_order req router w)

  unfoldable pub direct_order_handler :
      String → OrderRequest → SmartRouter World → World → Answer OrderResponse × World
  direct_order_handler platform req router w =
      answer "ORDER_FAILED" (submit_order (record req { platform = some platform }) router w)

  abbrev cancelled : String → Result (Unit {0}) × World → Result CancelResponse × World
  cancelled order_id (ok u, w) = (ok (record { status = "cancelled"; order_id = order_id }), w)
  cancelled order_id (err e, w) = (err e, w)

  unfoldable pub cancel_order_handler :
      String → String → SmartRouter World → World → Answer CancelResponse × World
  cancel_order_handler platform order_id router w =
      answer "CANCEL_FAILED" (cancelled order_id (cancel_order platform order_id router w))

  unfoldable pub list_orders_handler :
      String → SmartRouter World → World → Answer (List OrderResponse) × World
  list_orders_handler platform router w = answer "LIST_FAILED" (get_open_orders platform router w)

  abbrev health : ℕ → HashMap String Bool × World → HealthResponse × World
  health markets (platforms, w) =
      (record { status = "ok"; platforms = platforms; cached_markets = markets }, w)

  unfoldable pub health_handler : SmartRouter World → World → HealthResponse × World
  health_handler router w = health (length (M.iter router.bbo_cache.cache)) (health_check router w)

  -- A buy over the limit that is sent for smart routing is refused, and nothing outside of the
  -- program is touched. The same order sent for a platform that has an executor is handed to that
  -- executor.
  pub direct_order_handler-unlimited :
      (req : OrderRequest) (platform : String) (router : SmartRouter World) (w : World)
      (executor : Executor World)
      → is_too_large req ≡ true
      → get_executor platform router ≡ some executor
      → (smart_order_handler req router w ≡ (Answer.bad_request too_large, w))
        × (direct_order_handler platform req router w
            ≡ answer "ORDER_FAILED"
                (executor.submit_order (record req { platform = some platform }) w))
  unfolding smart_order_handler direct_order_handler submit_order submit_direct
  direct_order_handler-unlimited req platform router w executor large found =
      (rw large refl, ap (answer "ORDER_FAILED") (rw (found, submit_direct) refl))
