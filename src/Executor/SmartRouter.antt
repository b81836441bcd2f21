-- ===== src/Executor/SmartRouter.antt =====
-- `SmartRouter` of crates/executor/src/router.rs. A platform is reached through the `Executor`
-- trait (traits.rs), whose methods read and change a world outside of the program.
use wup_demo.Prelude.{
  String, string_eq, Bool, false, Option, none, some, List, [], ◌∷◌, if◌then◌else◌,
}
use wup_demo.Decimal.{Decimals, Decimal}
use wup_demo.DashMap.{DashMaps}
use wup_demo.HashMap
use wup_demo.HashMap.{HashMap}
use wup_demo.Executor.{
  OrderSide, OrderStatus, OrderRequest, OrderResponse, unknown_platform, no_available_platform,
  Result, ok, err,
}
use wup_demo.Executor.BboCache
use wup_demo.Executor.BboCache.{BboCache}

pub record Executor ⦃D : Decimals⦄ (World : Type 0) : Type 0 where
  pub platform_name : String
  pub submit_order : OrderRequest → World → Result OrderResponse × World
  pub cancel_order : String → World → Result (Unit {0}) × World
  pub get_open_orders : World → Result (List OrderResponse) × World
  pub get_order_status : String → World → Result OrderStatus × World
  pub health_check : World → Result Bool × World

-- `unwrap_or(false)`
abbrev pub healthy : Result Bool → Bool
healthy (ok b) = b
healthy (err e) = false

module _ ⦃D : Decimals⦄ ⦃M : DashMaps⦄ (World : Type 0) where
  pub record SmartRouter : Type 0 where
    pub executors : HashMap String (Executor World)
    pub bbo_cache : BboCache

module _ ⦃D : Decimals⦄ ⦃M : DashMaps⦄ {World : Type 0} where
  abbrev pub new : BboCache → SmartRouter World
  new bbo_cache = record { executors = []; bbo_cache = bbo_cache }

  unfoldable pub register : Executor World → SmartRouter World → SmartRouter World
  register executor router = record router {
    executors = HashMap.insert executor.platform_name executor router.executors;
  }

  unfoldable pub get_executor : String → SmartRouter World → Option (Executor World)
  get_executor platform router = HashMap.get platform router.executors

  -- A buy looks for the lowest ask, a sell for the highest bid.
  unfoldable pub best_quote :
      String → String → OrderSide → SmartRouter World → Option (String × Decimal)
  best_quote market_id asset_id OrderSide.buy router =
      BboCache.best_ask market_id asset_id router.bbo_cache
  best_quote market_id asset_id OrderSide.sell router =
      BboCache.best_bid market_id asset_id router.bbo_cache

  unfoldable pub find_best_platform :
      String → String → OrderSide → SmartRouter World → Option (String × Decimal)
  find_best_platform market_id asset_id side router =
      elim (best_quote market_id asset_id side router) [
        | none ↦ none
        | some best ↦ if HashMap.contains_key best.0 router.executors then some best else none
      ]

  -- `?`, and the price at the time of routing on the response.
  abbrev pub routed : Decimal → Result OrderResponse × World → Result OrderResponse × World
  routed price (ok response, w) = (ok (record response { routed_price = some price }), w)
  routed price (err e, w) = (err e, w)

  -- An order for a platform by name.
  unfoldable pub submit_direct :
      String → OrderRequest → SmartRouter World → World → Result OrderResponse × World
  submit_direct platform req router w = elim (get_executor platform router) [
    | none ↦ (err (unknown_platform platform), w)
    | some executor ↦ executor.submit_order req w
  ]

  -- An order for the platform with the best price.
  unfoldable pub submit_smart :
      OrderRequest → SmartRouter World → World → Result OrderResponse × World
  submit_smart req router w = elim (find_best_platform req.market_id req.token_id req.side router) [
    | none ↦ (err no_available_platform, w)
    | some best ↦ elim (get_executor best.0 router) [
      | none ↦ (err (unknown_platform best.0), w)
      | some executor ↦
          routed best.1 (executor.submit_order (record req { platform = some best.0 }) w)
    ]
  ]

  unfoldable pub submit_order :
      OrderRequest → SmartRouter World → World → Result OrderResponse × World
  submit_order req router w = elim req.platform [
    | none ↦ submit_smart req router w
    | some platform ↦ submit_direct platform req router w
  ]

  unfoldable pub cancel_order :
      String → String → SmartRouter World → World → Result (Unit {0}) × World
  cancel_order platform order_id router w = elim (get_executor platform router) [
    | none ↦ (err (unknown_platform platform), w)
    | some executor ↦ executor.cancel_order order_id w
  ]

  unfoldable pub get_open_orders :
      String → SmartRouter World → World → Result (List OrderResponse) × World
  get_open_orders platform router w = elim (get_executor platform router) [
    | none ↦ (err (unknown_platform platform), w)
    | some executor ↦ executor.get_open_orders w
  ]

  -- The loop over the executors, in the order of iteration.
  unfoldable pub check_all :
      HashMap String (Executor World) → HashMap String Bool → World → HashMap String Bool × World
  check_all [] results w = (results, w)
  check_all ((name, executor) ∷ executors) results w =
      let answer = executor.health_check w in
      check_all executors (HashMap.insert name (healthy answer.0) results) answer.1

  unfoldable pub health_check : SmartRouter World → World → HashMap String Bool × World
  health_check router w = check_all router.executors [] w
