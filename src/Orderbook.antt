-- ===== src/Orderbook.antt =====
-- `Orderbook` of crates/orderbook_service/src/orderbook.rs: the book of one asset over all
-- platforms, how a message changes it, and its queries. The proofs are in the modules below.
pub mod View
pub mod Invariant
pub mod Steps
pub mod Bbo
pub mod Header
pub mod Refinement
pub mod Best
pub mod Queries
use mathlib.Core.List.{reverse}
use wup_demo.Prelude.{
  contains, ℕ, ◌+◌, ◌%◌, ◌^◌, ℤ, pos, String, string_eq, str_eq, Bool, true, false, not, Option,
  none, some, List, [], ◌∷◌, ◌++◌, if◌then◌else◌, find,
}
use wup_demo.Decimal.{Decimals, Decimal}
use wup_demo.HashMap
use wup_demo.HashMap.{HashMap}
use wup_demo.OrderedMap
use wup_demo.OrderedMap.{BTreeMap}
use wup_demo.PlatformSizes
use wup_demo.PlatformSizes.{PlatformSizes}
use wup_demo.Schema.{PriceLevel, OrderbookMessageType, Side, OrderbookUpdate, NormalizedOrderbook}

abbrev pub u64_mod : ℕ
u64_mod = 2 ^ 64

abbrev pub Levels : ⦃D : Decimals⦄ → Type 0
Levels = BTreeMap PlatformSizes

pub record Orderbook ⦃D : Decimals⦄ : Type 0 where
  pub clob_token_id : String
  pub market_id : String
  pub bids : Levels
  pub asks : Levels
  pub platforms : List String
  pub exchange_best_bid : HashMap String String
  pub exchange_best_ask : HashMap String String
  pub system_best_bid : Option Decimal
  pub system_best_ask : Option Decimal
  pub last_exchange_timestamp : String
  pub last_received_at : ℤ
  pub update_count : ℕ

module _ ⦃D : Decimals⦄ where
  abbrev pub new : String → String → Orderbook
  new clob_token_id market_id = record {
    clob_token_id = clob_token_id;
    market_id = market_id;
    bids = [];
    asks = [];
    platforms = [];
    exchange_best_bid = [];
    exchange_best_ask = [];
    system_best_bid = none;
    system_best_ask = none;
    last_exchange_timestamp = "";
    last_received_at = pos 0;
    update_count = 0;
  }

  -- `!sizes.is_empty()`, the test of every scan over the levels.
  abbrev pub has_orders : Decimal × PlatformSizes → Bool
  has_orders l = not (PlatformSizes.is_empty l.1)

  -- The two books under `if is_bid { &mut self.bids } else { &mut self.asks }`.
  abbrev pub change_side : Bool → (Levels → Levels) → Orderbook → Orderbook
  change_side true f ob = record ob { bids = f ob.bids }
  change_side false f ob = record ob { asks = f ob.asks }

  -- `book.entry(price).or_insert_with(PlatformSizes::new).set(platform, size)`
  abbrev pub set_level : Bool → Decimal → String → Decimal → Orderbook → Orderbook
  set_level is_bid price platform size =
      change_side is_bid
        (OrderedMap.entry price PlatformSizes.new (PlatformSizes.set platform size))

  unfoldable pub insert_level_platform : String → String → Bool → String → Orderbook → Orderbook
  insert_level_platform price_str size_str is_bid platform ob = elim (D.from_str price_str) [
    | none ↦ ob
    | some price ↦ elim (D.from_str size_str) [
      | none ↦ ob
      | some size ↦ if D.is_zero size then ob else set_level is_bid price platform size ob
    ]
  ]

  abbrev pub is_buy : Side → Bool
  is_buy Side.buy = true
  is_buy Side.sell = false

  unfoldable pub apply_update_platform : String → OrderbookUpdate → Orderbook → Orderbook
  apply_update_platform platform update ob = elim (D.from_str update.price) [
    | none ↦ ob
    | some price ↦ elim (D.from_str update.size) [
      | none ↦ ob
      | some size ↦ set_level (is_buy update.side) price platform size ob
    ]
  ]

  -- `for level in levels { insert_level_platform(..) }`
  unfoldable pub insert_levels : Bool → String → List PriceLevel → Orderbook → Orderbook
  insert_levels is_bid platform [] ob = ob
  insert_levels is_bid platform (level ∷ levels) ob =
      insert_levels is_bid platform levels
        (insert_level_platform level.price level.size is_bid platform ob)

  unfoldable pub insert_optional_levels :
      Bool → String → Option (List PriceLevel) → Orderbook → Orderbook
  insert_optional_levels is_bid platform none ob = ob
  insert_optional_levels is_bid platform (some levels) ob = insert_levels is_bid platform levels ob

  -- The first loops of `apply_snapshot_platform`.
  unfoldable pub clear_platform : String → Orderbook → Orderbook
  clear_platform platform ob = record ob {
    bids = OrderedMap.change_values (PlatformSizes.clear_platform platform) ob.bids;
    asks = OrderedMap.change_values (PlatformSizes.clear_platform platform) ob.asks;
  }

  unfoldable pub apply_snapshot_platform : NormalizedOrderbook → String → Orderbook → Orderbook
  apply_snapshot_platform msg platform ob =
      insert_optional_levels false platform msg.asks
        (insert_optional_levels true platform msg.bids (clear_platform platform ob))

  unfoldable pub apply_updates : String → List OrderbookUpdate → Orderbook → Orderbook
  apply_updates platform [] ob = ob
  apply_updates platform (update ∷ updates) ob =
      apply_updates platform updates (apply_update_platform platform update ob)

  unfoldable pub apply_delta_platform : NormalizedOrderbook → String → Orderbook → Orderbook
  apply_delta_platform msg platform ob = elim msg.updates [
    | none ↦ ob
    | some updates ↦ apply_updates platform updates ob
  ]

  unfoldable pub cleanup_empty_levels : Orderbook → Orderbook
  cleanup_empty_levels ob = record ob {
    bids = OrderedMap.retain (λ sizes. not (PlatformSizes.is_empty sizes)) ob.bids;
    asks = OrderedMap.retain (λ sizes. not (PlatformSizes.is_empty sizes)) ob.asks;
  }

  -- The price of the first level with orders, in the order of the list.
  unfoldable pub first_price : Levels → Option Decimal
  first_price levels = elim (find has_orders levels) [ none ↦ none | some l ↦ some l.0 ]

  unfoldable pub recalculate_system_bbo : Orderbook → Orderbook
  recalculate_system_bbo ob = record ob {
    system_best_bid = first_price (reverse ob.bids);
    system_best_ask = first_price ob.asks;
  }

  unfoldable pub track_platform : String → Orderbook → Orderbook
  track_platform platform ob =
      if contains ob.platforms platform
      then ob
      else record ob { platforms = ob.platforms ++ platform ∷ [] }

  abbrev pub insert_some : String → Option String → HashMap String String → HashMap String String
  insert_some platform none m = m
  insert_some platform (some price) m = HashMap.insert platform price m

  unfoldable pub update_exchange_bbo : NormalizedOrderbook → Orderbook → Orderbook
  update_exchange_bbo msg ob = record ob {
    exchange_best_bid = insert_some msg.platform msg.best_bid ob.exchange_best_bid;
    exchange_best_ask = insert_some msg.platform msg.best_ask ob.exchange_best_ask;
  }

  unfoldable pub apply_levels : NormalizedOrderbook → Orderbook → Orderbook
  apply_levels msg ob = elim msg.message_type [
    | OrderbookMessageType.snapshot ↦ apply_snapshot_platform msg msg.platform ob
    | OrderbookMessageType.delta ↦ apply_delta_platform msg msg.platform ob
  ]

  unfoldable pub update_metadata : NormalizedOrderbook → Orderbook → Orderbook
  update_metadata msg ob = record ob {
    last_exchange_timestamp = msg.exchange_timestamp;
    last_received_at = msg.received_at;
    update_count = (ob.update_count + 1) % u64_mod;
  }

  unfoldable pub apply : NormalizedOrderbook → Orderbook → Orderbook
  apply msg ob = update_metadata msg (
      cleanup_empty_levels (
        recalculate_system_bbo
          (apply_levels msg (update_exchange_bbo msg (track_platform msg.platform ob)))))
