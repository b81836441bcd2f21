-- ===== src/Orderbook/Queries.antt =====
-- The queries of `Orderbook` in crates/orderbook_service/src/orderbook.rs.
use mathlib.Core.List.{foldl, reverse}
use wup_demo.Prelude.{
  ℕ, String, Bool, true, ◌&&◌, Option, none, some, List, [], ◌∷◌, map, take, keep, length,
  if◌then◌else◌,
}
use wup_demo.Decimal.{Decimals, Decimal}
use wup_demo.OrderedMap
use wup_demo.PlatformSizes
use wup_demo.PlatformSizes.{PlatformSizes}
use wup_demo.Schema.{PlatformEntry, AggregatedPriceLevel}
use wup_demo.Orderbook.{Levels, Orderbook, has_orders}

module _ ⦃D : Decimals⦄ where
  -- `match (bid, ask) { (Some(bid), Some(ask)) => Some(f(bid, ask)), _ => None }`
  abbrev both : (Decimal → Decimal → Decimal) → Option Decimal → Option Decimal → Option Decimal
  both f (some bid) (some ask) = some (f bid ask)
  both f (some bid) none = none
  both f none ask = none

  unfoldable pub mid_price : Orderbook → Option Decimal
  mid_price ob =
      both (λ bid ask. D.div (D.add bid ask) (D.from_ℕ 2)) ob.system_best_bid ob.system_best_ask

  unfoldable pub spread : Orderbook → Option Decimal
  spread ob = both (λ bid ask. D.sub ask bid) ob.system_best_bid ob.system_best_ask

  abbrev total_at : Decimal × PlatformSizes → Decimal × Decimal
  total_at l = (l.0, PlatformSizes.total_size l.1)

  unfoldable pub top_bids : ℕ → Orderbook → List (Decimal × Decimal)
  top_bids n ob = map total_at (take n (keep has_orders (reverse ob.bids)))

  unfoldable pub top_asks : ℕ → Orderbook → List (Decimal × Decimal)
  top_asks n ob = map total_at (take n (keep has_orders ob.asks))

  abbrev pub platform_entry : String × Decimal → PlatformEntry
  platform_entry e = record { platform = e.0; size = D.to_string e.1 }

  -- The `AggregatedPriceLevel { .. }` that four of the queries build.
  abbrev pub aggregated : Decimal → PlatformSizes → AggregatedPriceLevel
  aggregated price sizes = record {
    price = D.to_string price;
    total_size = D.to_string (PlatformSizes.total_size sizes);
    platforms = map platform_entry sizes.sizes;
  }

  unfoldable pub top_bids_with_platforms : ℕ → Orderbook → List AggregatedPriceLevel
  top_bids_with_platforms n ob =
      map (λ l. aggregated l.0 l.1) (take n (keep has_orders (reverse ob.bids)))

  unfoldable pub top_asks_with_platforms : ℕ → Orderbook → List AggregatedPriceLevel
  top_asks_with_platforms n ob = map (λ l. aggregated l.0 l.1) (take n (keep has_orders ob.asks))

  -- The level at a price, if it has orders.
  unfoldable pub aggregated_level : Decimal → Option PlatformSizes → Option AggregatedPriceLevel
  aggregated_level price none = none
  aggregated_level price (some sizes) =
      if PlatformSizes.is_empty sizes then none else some (aggregated price sizes)

  unfoldable pub get_aggregated_bid_level : String → Orderbook → Option AggregatedPriceLevel
  get_aggregated_bid_level price ob = elim (D.from_str price) [
    | none ↦ none
    | some price_decimal ↦ aggregated_level price_decimal (OrderedMap.get price_decimal ob.bids)
  ]

  unfoldable pub get_aggregated_ask_level : String → Orderbook → Option AggregatedPriceLevel
  get_aggregated_ask_level price ob = elim (D.from_str price) [
    | none ↦ none
    | some price_decimal ↦ aggregated_level price_decimal (OrderedMap.get price_decimal ob.asks)
  ]

  abbrev depth_of : Levels → Decimal
  depth_of levels = foldl D.add D.zero (map PlatformSizes.total_size (OrderedMap.values levels))

  unfoldable pub bid_depth : Orderbook → Decimal
  bid_depth ob = depth_of ob.bids

  unfoldable pub ask_depth : Orderbook → Decimal
  ask_depth ob = depth_of ob.asks

  unfoldable pub bid_levels : Orderbook → ℕ
  bid_levels ob = length (keep has_orders ob.bids)

  unfoldable pub ask_levels : Orderbook → ℕ
  ask_levels ob = length (keep has_orders ob.asks)

  abbrev all_empty : Levels → Bool
  all_empty [] = true
  all_empty (l ∷ ls) = PlatformSizes.is_empty l.1 && all_empty ls

  unfoldable pub is_empty : Orderbook → Bool
  is_empty ob = all_empty ob.bids && all_empty ob.asks
