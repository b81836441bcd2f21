-- ===== src/Example/Submissions.antt =====
-- The theorems on submissions, at an exchange that counts the calls.
use wup_demo.Prelude.{ℕ, ◌+◌, pos, true, false, none, some, [], ◌≡◌, inr, refl}
use wup_demo.Example.Tally.{tally}
use wup_demo.Executor.{OrderSide, OrderType, OrderRequest}
use wup_demo.Executor.Polymarket.{OrderStatusType}
use wup_demo.Executor.Submission.{Sdk, PolymarketExecutor, Clock, submit_order}
use wup_demo.Executor.Submission.Orders.{submit_order-untouched}

abbrev sdk : Sdk ℕ
sdk = record {
  Amount = ℕ;
  Order = ℕ;
  Signed = ℕ;
  usdc = λ d. some d;
  shares = λ d. some d;
  market_order = λ id amount side t w. (some amount, w + 1);
  limit_order = λ id size price side t w. (some size, w + 1);
  sign = λ o w. (some o, w + 1);
  post_order = λ o w. (some (record { order_id = "id"; status = OrderStatusType.live }), w + 1);
  cancel_order = λ id w. (none, w + 1);
  cancel_all_orders = λ w. (none, w + 1);
  orders = λ w. (some [], w + 1);
  order = λ id w. (none, w + 1);
  is_ok = λ w. (some tt, w + 1);
}

abbrev executor : PolymarketExecutor ℕ
executor = record { client = sdk; dry_run = false }

abbrev clock : Clock
clock = record { now = pos 4; to_string = λ t. "4" }

abbrev request : OrderRequest
request = record {
  market_id = "market";
  token_id = "token";
  side = OrderSide.buy;
  order_type = OrderType.gtd;
  platform = none;
  price = some 3;
  size = some 2;
  amount = none;
  expiration = some 99;
  post_only = some true;
  tick_size = none;
}

-- A market order without an amount.
abbrev no_amount : OrderRequest
no_amount = record request { order_type = OrderType.market }

submit_order-untouched_example : (submit_order clock executor no_amount 5).1 ≡ 5
submit_order-untouched_example = submit_order-untouched clock executor no_amount 5 (inr refl)
