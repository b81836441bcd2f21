-- ===== src/Executor/Polymarket.antt =====
-- crates/executor/src/platforms/polymarket/types.rs, and the conversions of open orders in
-- client.rs there. The order of the SDK is a record of what the code reads of it; its side is
-- already printed, since only its text is used.
use wup_demo.Prelude.{ℕ, String, str_eq, Option, none, some, List, map, if◌then◌else◌}
use wup_demo.Decimal.{Decimals, Decimal}
use wup_demo.Executor.{OrderStatus, OrderResponse, OrderSide}

pub data TickSize : Type 0 where
  tenth hundredth thousandth ten_thousandth : TickSize

pub record RoundConfig : Type 0 where
  pub price : ℕ
  pub size : ℕ
  pub amount : ℕ

unfoldable pub round_config : TickSize → RoundConfig
round_config TickSize.tenth = record { price = 1; size = 2; amount = 3 }
round_config TickSize.hundredth = record { price = 2; size = 2; amount = 4 }
round_config TickSize.thousandth = record { price = 3; size = 2; amount = 5 }
round_config TickSize.ten_thousandth = record { price = 4; size = 2; amount = 6 }

unfoldable pub parse : String → Option TickSize
parse s =
    if str_eq s "0.1"
    then some TickSize.tenth
    else if str_eq s "0.01"
    then some TickSize.hundredth
    else if str_eq s "0.001"
    then some TickSize.thousandth
    else if str_eq s "0.0001"
    then some TickSize.ten_thousandth
    else none

unfoldable pub as_str : TickSize → String
as_str TickSize.tenth = "0.1"
as_str TickSize.hundredth = "0.01"
as_str TickSize.thousandth = "0.001"
as_str TickSize.ten_thousandth = "0.0001"

pub data PolymarketSide : Type 0 where
  buy sell : PolymarketSide

unfoldable pub from_side : OrderSide → PolymarketSide
from_side OrderSide.buy = PolymarketSide.buy
from_side OrderSide.sell = PolymarketSide.sell

-- The statuses of the SDK that the code names, and the rest.
pub data OrderStatusType : Type 0 where
  live matched canceled delayed unknown other : OrderStatusType

unfoldable pub from_status : OrderStatusType → OrderStatus
from_status OrderStatusType.live = OrderStatus.open_order
from_status OrderStatusType.matched = OrderStatus.matched
from_status OrderStatusType.canceled = OrderStatus.cancelled
from_status OrderStatusType.delayed = OrderStatus.pending
from_status OrderStatusType.unknown = OrderStatus.unknown
from_status OrderStatusType.other = OrderStatus.unknown

pub record OpenOrder : Type 0 where
  pub order_id : String
  pub order_hash : String
  pub condition_id : String
  pub token_id : String
  pub side : String
  pub price : String
  pub original_size : String
  pub size_remaining : String
  pub order_type : String
  pub status : OrderStatusType
  pub created_at : String

module _ ⦃D : Decimals⦄ where
  pub record SdkOrder : Type 0 where
    pub id : String
    pub market : String
    pub asset_id : String
    pub side : String
    pub price : Decimal
    pub original_size : Decimal
    pub size_matched : Decimal
    pub status : OrderStatusType

  -- `OpenOrder { .. }` in `get_open_orders` and `get_order`.
  unfoldable pub open_order : SdkOrder → OpenOrder
  open_order o = record {
    order_id = o.id;
    order_hash = "";
    condition_id = o.market;
    token_id = o.asset_id;
    side = o.side;
    price = D.to_string o.price;
    original_size = D.to_string o.original_size;
    size_remaining = D.to_string o.size_matched;
    order_type = "";
    status = o.status;
    created_at = "";
  }

  unfoldable pub get_open_orders : List SdkOrder → List OpenOrder
  get_open_orders page = map open_order page

  abbrev filled : Option Decimal → Option Decimal → Option Decimal
  filled (some o) (some r) = some (D.sub o r)
  filled _ _ = none

  -- `impl From<OpenOrder> for OrderResponse`
  unfoldable pub from_open_order : OpenOrder → OrderResponse
  from_open_order order =
      let remaining = D.from_str order.size_remaining in
      record {
        order_id = order.order_id;
        platform = "polymarket";
        status = from_status order.status;
        filled_size = filled (D.from_str order.original_size) remaining;
        remaining_size = remaining;
        routed_price = none;
      }
