-- ===== src/Executor/BboCache.antt =====
-- `BboCache` of crates/executor/src/bbo_cache.rs: the best prices by platform, from the published
-- changes. A message is modelled after it was read from JSON; the subscription is left out. An
-- error in a message keeps what the message has changed before it.
use wup_demo.Prelude.{
  String, string_eq, pair_eq, str_eq, Bool, Option, none, some, List, [], ◌∷◌, if◌then◌else◌,
}
use wup_demo.Decimal.{Decimals, Decimal, eqb, lt}
use wup_demo.DashMap.{DashMaps, DashMap}
use wup_demo.Executor.{Error, decimal_parse}

pub record PlatformSize : Type 0 where
  pub platform : String
  pub size : String

pub record PriceChange : Type 0 where
  pub side : String
  pub price : String
  pub total_size : String
  pub platforms : List PlatformSize

pub record OrderbookChange : Type 0 where
  pub market_id : String
  pub asset_id : String
  pub changes : List PriceChange

module _ ⦃D : Decimals⦄ where
  -- `max_by_key`: of several greatest entries, the last one.
  unfoldable pub max_from : String × Decimal → List (String × Decimal) → String × Decimal
  max_from b [] = b
  max_from b (e ∷ es) = max_from (if lt e.1 b.1 then b else e) es

  unfoldable pub max_by_value : List (String × Decimal) → Option (String × Decimal)
  max_by_value [] = none
  max_by_value (e ∷ es) = some (max_from e es)

  -- `min_by_key`: of several least entries, the first one.
  unfoldable pub min_from : String × Decimal → List (String × Decimal) → String × Decimal
  min_from b [] = b
  min_from b (e ∷ es) = min_from (if lt e.1 b.1 then e else b) es

  unfoldable pub min_by_value : List (String × Decimal) → Option (String × Decimal)
  min_by_value [] = none
  min_by_value (e ∷ es) = some (min_from e es)

module _ ⦃D : Decimals⦄ ⦃M : DashMaps⦄ where
  pub record CachedBbo : Type 0 where
    pub best_bids : DashMap String Decimal
    pub best_asks : DashMap String Decimal

  pub record BboCache : Type 0 where
    pub cache : DashMap (String × String) CachedBbo

  abbrev pub new : BboCache
  new = record { cache = M.empty }

  abbrev pub empty_bbo : CachedBbo
  empty_bbo = record { best_bids = M.empty; best_asks = M.empty }

  -- The price is to go if it is the one cached for the platform. It is removed while the reference
  -- that `get` gave is still held, on which `dashmap` waits for ever: then there is no result.
  unfoldable pub remove_price :
      String → Decimal → DashMap String Decimal → Option (DashMap String Decimal)
  remove_price platform price best = elim (M.get platform best) [
    | none ↦ some best
    | some current ↦ if eqb current price then none else some best
  ]

  -- `entry(platform).and_modify(...).or_insert(price)`: the price counts where it is better.
  unfoldable pub offer_price :
      (Decimal → Decimal → Bool)
      → String
      → Decimal
      → DashMap String Decimal
      → DashMap String Decimal
  offer_price better platform price best = elim (M.get platform best) [
    | none ↦ M.insert platform price best
    | some current ↦ if better price current then M.insert platform price best else best
  ]

  -- `price > current` and `price < current`
  abbrev pub higher : Decimal → Decimal → Bool
  higher price current = lt current price

  abbrev pub lower : Decimal → Decimal → Bool
  lower price current = lt price current

  unfoldable pub change_best :
      (Decimal → Decimal → Bool)
      → String
      → Decimal
      → Decimal
      → DashMap String Decimal
      → Option (DashMap String Decimal)
  change_best better platform price size best =
      if D.is_zero size
      then remove_price platform price best
      else some (offer_price better platform price best)

  abbrev pub with_bids : CachedBbo → Option (DashMap String Decimal) → Option CachedBbo
  with_bids bbo none = none
  with_bids bbo (some bids) = some (record bbo { best_bids = bids })

  abbrev pub with_asks : CachedBbo → Option (DashMap String Decimal) → Option CachedBbo
  with_asks bbo none = none
  with_asks bbo (some asks) = some (record bbo { best_asks = asks })

  -- `match price_change.side.as_str()`
  unfoldable pub change_side : String → String → Decimal → Decimal → CachedBbo → Option CachedBbo
  change_side side platform price size bbo =
      if str_eq side "buy"
      then with_bids bbo (change_best higher platform price size bbo.best_bids)
      else if str_eq side "sell"
      then with_asks bbo (change_best lower platform price size bbo.best_asks)
      else some bbo

  -- The loop over the platforms of one change, up to the first size that is no number. There is a
  -- result where every step has one.
  unfoldable pub handle_platforms :
      String → Decimal → List PlatformSize → CachedBbo → Option (CachedBbo × Option Error)
  handle_platforms side price [] bbo = some (bbo, none)
  handle_platforms side price (p ∷ ps) bbo = elim (D.from_str p.size) [
    | none ↦ some (bbo, some decimal_parse)
    | some size ↦ elim (change_side side p.platform price size bbo) [
      | none ↦ none
      | some after ↦ handle_platforms side price ps after
    ]
  ]

  -- `?` on the result of one change: the next one is reached only without an error.
  unfoldable pub handle_changes : List PriceChange → CachedBbo → Option (CachedBbo × Option Error)
  handle_changes [] bbo = some (bbo, none)
  handle_changes (c ∷ cs) bbo = elim (D.from_str c.price) [
    | none ↦ some (bbo, some decimal_parse)
    | some price ↦ elim (handle_platforms c.side price c.platforms bbo) [
      | none ↦ none
      | some step ↦ elim step.1 [ none ↦ handle_changes cs step.0 | some e ↦ some (step.0, some e) ]
    ]
  ]

  abbrev pub or_default : Option CachedBbo → CachedBbo
  or_default none = empty_bbo
  or_default (some bbo) = bbo

  unfoldable pub handle_change : OrderbookChange → BboCache → Option (BboCache × Option Error)
  handle_change change cache =
      let key : String × String = (change.market_id, change.asset_id) in
      elim (handle_changes change.changes (or_default (M.get key cache.cache))) [
        | none ↦ none
        | some step ↦ some (record cache { cache = M.insert key step.0 cache.cache }, step.1)
      ]

  unfoldable pub best_bid : String → String → BboCache → Option (String × Decimal)
  best_bid market_id asset_id cache = elim (M.get (market_id, asset_id) cache.cache) [
    | none ↦ none
    | some entry ↦ max_by_value (M.iter entry.best_bids)
  ]

  unfoldable pub best_ask : String → String → BboCache → Option (String × Decimal)
  best_ask market_id asset_id cache = elim (M.get (market_id, asset_id) cache.cache) [
    | none ↦ none
    | some entry ↦ min_by_value (M.iter entry.best_asks)
  ]

  unfoldable pub get_platform_bbo :
      String → String → String → BboCache → Option (Option Decimal × Option Decimal)
  get_platform_bbo market_id asset_id platform cache =
      elim (M.get (market_id, asset_id) cache.cache) [
        | none ↦ none
        | some entry ↦ some (M.get platform entry.best_bids, M.get platform entry.best_asks)
      ]
