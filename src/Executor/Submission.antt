-- ===== src/Executor/Submission.antt =====
-- `PolymarketSdkClient` (crates/executor/src/platforms/polymarket/client.rs) and
-- `PolymarketExecutor` (executor.rs there): how an order is submitted. The SDK is a parameter: each
-- of its calls may read and change the world outside of the program, and may fail, with `none`.
pub mod Orders
use Prim.Native.String.{◌++◌}
use wup_demo.Prelude.{ℤ, ℕ, String, Bool, true, false, Option, none, some, List, map, if◌then◌else◌}
use wup_demo.Decimal.{Decimals, Decimal}
use wup_demo.Executor
use wup_demo.Executor.{OrderSide, OrderType, OrderStatus, OrderRequest, OrderResponse}
use wup_demo.Executor.SmartRouter.{Executor}
use wup_demo.Executor.Polymarket.{
  PolymarketSide, from_side, OrderStatusType, from_status, SdkOrder, OpenOrder, open_order,
  from_open_order,
}

-- The errors of crates/executor/src/platforms/error.rs that these calls return; a text of the SDK is
-- left out.
pub data Error : Type 0 where
  invalid_order : String → Error
  not_built signing api_error : Error

pub data Result (A : Type 0) : Type 0 where
  ok : A → Result A
  err : Error → Result A

pub data SdkOrderType : Type 0 where
  gtc gtd fok : SdkOrderType

pub record Posted : Type 0 where
  pub order_id : String
  pub status : OrderStatusType

pub record Sdk ⦃D : Decimals⦄ (World : Type 0) : Type 1 where
  pub Amount : Type 0
  pub Order : Type 0
  pub Signed : Type 0
  pub usdc : Decimal → Option Amount
  pub shares : Decimal → Option Amount
  pub market_order : String → Amount → PolymarketSide → SdkOrderType → World → Option Order × World
  pub limit_order :
      String → Decimal → Decimal → PolymarketSide → SdkOrderType → World → Option Order × World
  pub sign : Order → World → Option Signed × World
  pub post_order : Signed → World → Option Posted × World
  pub cancel_order : String → World → Option (Unit {0}) × World
  pub cancel_all_orders : World → Option (Unit {0}) × World
  pub orders : World → Option (List SdkOrder) × World
  pub order : String → World → Option SdkOrder × World
  pub is_ok : World → Option (Unit {0}) × World

-- `call.await.map_err(error)?` and what follows it.
abbrev pub try :
    {World A B : Type 0}
    → Option A × World
    → Error
    → (A → World → Result B × World)
    → Result B × World
try (none, w) e next = (err e, w)
try (some a, w) e next = next a w

abbrev pub done : {World B : Type 0} → B → World → Result B × World
done b w = (ok b, w)

module _ ⦃D : Decimals⦄ {World : Type 0} (sdk : Sdk World) where
  -- Signing and posting, which both kinds of orders end with.
  abbrev pub submit_signed :
      Option Decimal → Option Decimal → sdk.Order → World → Result OrderResponse × World
  submit_signed remaining_size routed_price order w =
      try (sdk.sign order w) Error.signing (λ signed w₁.
        try (sdk.post_order signed w₁) Error.api_error (λ (response : Posted). done (record {
          order_id = response.order_id;
          platform = "polymarket";
          status = from_status response.status;
          filled_size = none;
          remaining_size = remaining_size;
          routed_price = routed_price;
        })))

  -- `Amount::usdc` for a buy, `Amount::shares` for a sell.
  abbrev pub amount_of : OrderSide → Decimal → Option sdk.Amount
  amount_of OrderSide.buy value = sdk.usdc value
  amount_of OrderSide.sell value = sdk.shares value

  unfoldable pub submit_market :
      OrderRequest → Option Decimal → World → Result OrderResponse × World
  submit_market req none w = (err (Error.invalid_order "Market orders require 'amount'"), w)
  submit_market req (some value) w =
      try (amount_of req.side value, w) Error.not_built
        (λ amount w₁.
          try (sdk.market_order req.token_id amount (from_side req.side) SdkOrderType.fok w₁)
            Error.not_built (submit_signed none none))

  unfoldable pub submit_limit :
      OrderRequest
      → SdkOrderType
      → Option Decimal
      → Option Decimal
      → World
      → Result OrderResponse × World
  submit_limit req order_type none size w =
      (err (Error.invalid_order "Limit orders require 'price'"), w)
  submit_limit req order_type (some price) none w =
      (err (Error.invalid_order "Limit orders require 'size'"), w)
  submit_limit req order_type (some price) (some size) w =
      try (sdk.limit_order req.token_id size price (from_side req.side) order_type w)
        Error.not_built (submit_signed (some size) (some price))

  abbrev pub submit_typed : OrderRequest → OrderType → World → Result OrderResponse × World
  submit_typed req OrderType.market = submit_market req req.amount
  submit_typed req OrderType.gtc = submit_limit req SdkOrderType.gtc req.price req.size
  submit_typed req OrderType.gtd = submit_limit req SdkOrderType.gtd req.price req.size
  submit_typed req OrderType.fok = submit_limit req SdkOrderType.fok req.price req.size

  unfoldable pub client_submit_order : OrderRequest → World → Result OrderResponse × World
  client_submit_order req = submit_typed req req.order_type

  unfoldable pub client_cancel_order : String → World → Result (Unit {0}) × World
  client_cancel_order order_id w = try (sdk.cancel_order order_id w) Error.api_error done

  unfoldable pub client_cancel_all_orders : World → Result (Unit {0}) × World
  client_cancel_all_orders w = try (sdk.cancel_all_orders w) Error.api_error done

  unfoldable pub client_get_open_orders : World → Result (List OpenOrder) × World
  client_get_open_orders w = try (sdk.orders w) Error.api_error (λ page. done (map open_order page))

  unfoldable pub client_get_order : String → World → Result OpenOrder × World
  client_get_order order_id w =
      try (sdk.order order_id w) Error.api_error (λ order. done (open_order order))

  unfoldable pub client_health_check : World → Result Bool × World
  client_health_check w = try (sdk.is_ok w) Error.api_error (λ u. done true)

-- `map_err(Error::Platform)`
abbrev pub platform_result : {World A : Type 0} → Result A × World → Executor.Result A × World
platform_result (ok a, w) = (Executor.ok a, w)
platform_result (err e, w) = (Executor.err Executor.Error.platform, w)

abbrev pub map_result :
    {World A B : Type 0} → (A → B) → Executor.Result A × World → Executor.Result B × World
map_result f (Executor.ok a, w) = (Executor.ok (f a), w)
map_result f (Executor.err e, w) = (Executor.err e, w)

pub record PolymarketExecutor ⦃D : Decimals⦄ (World : Type 0) : Type 1 where
  pub client : Sdk World
  pub dry_run : Bool

unfoldable pub set_dry_run :
    ⦃D : Decimals⦄ {World : Type 0} → Bool → PolymarketExecutor World → PolymarketExecutor World
set_dry_run enabled e = record e { dry_run = enabled }

-- The time in milliseconds, and how it is printed.
pub record Clock : Type 0 where
  pub now : ℤ
  pub to_string : ℤ → String

-- The answer of a dry run, whose identifier is made of the time.
unfoldable pub dry_response : ⦃D : Decimals⦄ → Clock → OrderRequest → OrderType → OrderResponse
dry_response clock req OrderType.market = record {
  order_id = "dry-run-market-" ++ clock.to_string clock.now;
  platform = "polymarket";
  status = OrderStatus.pending;
  filled_size = none;
  remaining_size = none;
  routed_price = none;
}
dry_response clock req order_type = record {
  order_id = "dry-run-" ++ clock.to_string clock.now;
  platform = "polymarket";
  status = OrderStatus.pending;
  filled_size = none;
  remaining_size = req.size;
  routed_price = req.price;
}

module _ ⦃D : Decimals⦄ {World : Type 0} (clock : Clock) (e : PolymarketExecutor World) where
  unfoldable pub submit_order : OrderRequest → World → Executor.Result OrderResponse × World
  submit_order req w =
      if e.dry_run
      then (Executor.ok (dry_response clock req req.order_type), w)
      else platform_result (client_submit_order e.client req w)

  unfoldable pub cancel_order : String → World → Executor.Result (Unit {0}) × World
  cancel_order order_id w = platform_result (client_cancel_order e.client order_id w)

  unfoldable pub get_open_orders : World → Executor.Result (List OrderResponse) × World
  get_open_orders w =
      map_result (map from_open_order) (platform_result (client_get_open_orders e.client w))

  unfoldable pub get_order_status : String → World → Executor.Result OrderStatus × World
  get_order_status order_id w =
      map_result (λ (order : OpenOrder). from_status order.status)
        (platform_result (client_get_order e.client order_id w))

  unfoldable pub health_check : World → Executor.Result Bool × World
  health_check w = platform_result (client_health_check e.client w)

  -- The executor as the router sees it.
  abbrev pub polymarket_executor : Executor World
  polymarket_executor = record {
    platform_name = "polymarket";
    submit_order = submit_order;
    cancel_order = cancel_order;
    get_open_orders = get_open_orders;
    get_order_status = get_order_status;
    health_check = health_check;
  }
