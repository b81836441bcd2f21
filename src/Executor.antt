-- ===== src/Executor.antt =====
-- The types of crates/executor/src/types.rs and the errors of error.rs there, which the router
-- and the platforms share. An error from another crate carries nothing here.
pub mod BboCache
pub mod SmartRouter
pub mod Extremes
pub mod Routes
pub mod Cached
pub mod Polymarket
pub mod Conversions
pub mod Submission
pub mod Api
use wup_demo.Prelude.{ℕ, String, Bool, Option, none, some, List}
use wup_demo.Decimal.{Decimals, Decimal}

pub data OrderSide : Type 0 where
  buy sell : OrderSide

pub data OrderType : Type 0 where
  gtc gtd fok market : OrderType

pub data OrderStatus : Type 0 where
  pending open_order filled partially_filled cancelled rejected matched unknown : OrderStatus

pub record OrderRequest ⦃D : Decimals⦄ : Type 0 where
  pub market_id : String
  pub token_id : String
  pub side : OrderSide
  pub order_type : OrderType
  pub platform : Option String
  pub price : Option Decimal
  pub size : Option Decimal
  pub amount : Option Decimal
  pub expiration : Option ℕ
  pub post_only : Option Bool
  pub tick_size : Option String

pub record OrderResponse ⦃D : Decimals⦄ : Type 0 where
  pub order_id : String
  pub platform : String
  pub status : OrderStatus
  pub filled_size : Option Decimal
  pub remaining_size : Option Decimal
  pub routed_price : Option Decimal

pub data Error : Type 0 where
  missing_env unknown_platform : String → Error
  no_available_platform platform json : Error
  nats : String → Error
  decimal_parse : Error
  order_failed : String → Error

pub data Result (A : Type 0) : Type 0 where
  ok : A → Result A
  err : Error → Result A
