-- ===== src/Service/Published.antt =====
-- What the service publishes, and what the executor's cache makes of it.
use wup_demo.Prelude.{
  ℤ, String, string_eq, pair_eq, false, Option, none, some, List, [], ◌∷◌, ◌≡◌, ◌∙◌, sym, ap, map,
  Option-cases, Bool-cases, inl, inr, subst,
}
use wup_demo.Decimal.{Decimals, Decimal}
use wup_demo.DashMap.{DashMaps}
use wup_demo.HashMap.{HashMap}
use wup_demo.OrderedMap
use wup_demo.OrderedMap.Values.{AtSome, get-AllValues}
use wup_demo.PlatformSizes
use wup_demo.PlatformSizes.{PlatformSizes}
use wup_demo.PlatformSizes.Laws.{NonZero, IsLevel}
use wup_demo.Schema.{
  NormalizedOrderbook, OrderSide, PlatformEntry, AggregatedPriceLevel, AggregatedPriceLevelChange,
  AggregatedPriceChangeEvent,
}
use wup_demo.Orderbook.{Orderbook}
use wup_demo.Orderbook.Invariant.{IsSound}
use wup_demo.Orderbook.Queries.{
  platform_entry, aggregated_level, get_aggregated_bid_level, get_aggregated_ask_level,
}
use wup_demo.Store.{OrderbookStore, find_book, get_aggregated_bid, get_aggregated_ask}
use wup_demo.Service.{affected_prices, change_of_level, level_at, published_change, publish_change}
use wup_demo.Executor.BboCache.{PlatformSize, PriceChange, CachedBbo, handle_changes}
use wup_demo.Executor.Cached.{NoZero, AllNoZero, BidsFrom, StillBids, handle_changes-BidsFrom}

-- The two sides of the JSON: what is written as one type is read as the other.
abbrev side_text : OrderSide → String
side_text OrderSide.buy = "buy"
side_text OrderSide.sell = "sell"

abbrev read_entry : PlatformEntry → PlatformSize
read_entry e = record { platform = e.platform; size = e.size }

abbrev read_change : AggregatedPriceLevelChange → PriceChange
read_change c = record {
  side = side_text c.side;
  price = c.price;
  total_size = c.total_size;
  platforms = map read_entry c.platforms;
}

abbrev pub received : AggregatedPriceChangeEvent → List PriceChange
received event = map read_change event.changes

module _ ⦃D : Decimals⦄ where
  -- A size that is not zero is not zero either when it is read back.
  read_non_zero :
      (d size : Decimal)
      → D.is_zero d ≡ false
      → D.from_str (D.to_string d) ≡ some size
      → D.is_zero size ≡ false
  read_non_zero d size z e =
      let (back, b, same) = D.from_str-to_string d in
      let s : size ≡ back = cc in
      elim (Bool-cases (D.is_zero size)) [
        | inl bad ↦
            let rank_zero : D.rank d ≡ D.rank D.zero =
              sym same ∙ ap D.rank (sym s) ∙ (D.is_zero_iff size).0 bad in
            absurd (cc (z, (D.is_zero_iff d).1 rank_zero))
        | inr good ↦ good
      ]

  entries-NoZero :
      (m : HashMap String Decimal) → NonZero m → NoZero (map read_entry (map platform_entry m))
  entries-NoZero [] h = tt
  entries-NoZero ((k, d) ∷ m) h = (λ size e. read_non_zero d size h.0 e, entries-NoZero m h.1)

  -- The entries of a level that is found in a book in good order.
  abbrev EntriesOf : Option AggregatedPriceLevel → Type 0
  EntriesOf none = Unit
  EntriesOf (some level) = NoZero (map read_entry level.platforms)

  aggregated_level-EntriesOf :
      (price : Decimal) (o : Option PlatformSizes)
      → AtSome IsLevel o
      → EntriesOf (aggregated_level price o)
  unfolding aggregated_level
  aggregated_level-EntriesOf price none h = tt
  aggregated_level-EntriesOf price (some sizes) h =
      elim (Bool-cases (PlatformSizes.is_empty sizes)) [
        | inl e ↦ rw e tt
        | inr e ↦ rw e (entries-NoZero sizes.sizes h.non_zero)
      ]

  bid-EntriesOf :
      (price : String) (ob : Orderbook) → IsSound ob → EntriesOf (get_aggregated_bid_level price ob)
  unfolding get_aggregated_bid_level
  bid-EntriesOf price ob h = elim (Option-cases (D.from_str price)) [
    | inl e ↦ rw (e, get_aggregated_bid_level) tt
    | inr (d, e) ↦
        rw (e, get_aggregated_bid_level)
          (aggregated_level-EntriesOf d (OrderedMap.get d ob.bids)
            (get-AllValues IsLevel d ob.bids h.bids.sound))
  ]

  ask-EntriesOf :
      (price : String) (ob : Orderbook) → IsSound ob → EntriesOf (get_aggregated_ask_level price ob)
  unfolding get_aggregated_ask_level
  ask-EntriesOf price ob h = elim (Option-cases (D.from_str price)) [
    | inl e ↦ rw (e, get_aggregated_ask_level) tt
    | inr (d, e) ↦
        rw (e, get_aggregated_ask_level)
          (aggregated_level-EntriesOf d (OrderedMap.get d ob.asks)
            (get-AllValues IsLevel d ob.asks h.asks.sound))
  ]

module _ ⦃D : Decimals⦄ ⦃M : DashMaps⦄ where
  -- Every book of the store is in good order.
  abbrev pub IsSoundBook : Option Orderbook → Type 0
  IsSoundBook none = Unit
  IsSoundBook (some ob) = IsSound ob

  found_bid-EntriesOf :
      (m a price : String) (store : OrderbookStore)
      → IsSoundBook (find_book m a store)
      → EntriesOf (get_aggregated_bid m a price store)
  unfolding get_aggregated_bid
  found_bid-EntriesOf m a price store h = elim (Option-cases (find_book m a store)) [
    | inl e ↦ rw (e, get_aggregated_bid) tt
    | inr (ob, e) ↦ rw (e, get_aggregated_bid) (bid-EntriesOf price ob (subst IsSoundBook e h))
  ]

  found_ask-EntriesOf :
      (m a price : String) (store : OrderbookStore)
      → IsSoundBook (find_book m a store)
      → EntriesOf (get_aggregated_ask m a price store)
  unfolding get_aggregated_ask
  found_ask-EntriesOf m a price store h = elim (Option-cases (find_book m a store)) [
    | inl e ↦ rw (e, get_aggregated_ask) tt
    | inr (ob, e) ↦ rw (e, get_aggregated_ask) (ask-EntriesOf price ob (subst IsSoundBook e h))
  ]

  level_at-EntriesOf :
      (msg : NormalizedOrderbook) (store : OrderbookStore) (at : String × OrderSide)
      → IsSoundBook (find_book msg.market_id msg.clob_token_id store)
      → EntriesOf (level_at msg store at)
  unfolding level_at
  level_at-EntriesOf msg store (price, OrderSide.buy) h =
      found_bid-EntriesOf msg.market_id msg.clob_token_id price store h
  level_at-EntriesOf msg store (price, OrderSide.sell) h =
      found_ask-EntriesOf msg.market_id msg.clob_token_id price store h

  change-NoZero :
      (price : String) (side : OrderSide) (o : Option AggregatedPriceLevel)
      → EntriesOf o
      → NoZero (map read_entry (change_of_level price side o).platforms)
  change-NoZero price side none h = tt
  change-NoZero price side (some level) h = h

  changes-AllNoZero :
      (msg : NormalizedOrderbook) (store : OrderbookStore) (ats : List (String × OrderSide))
      → IsSoundBook (find_book msg.market_id msg.clob_token_id store)
      → AllNoZero (map read_change (map (published_change msg store) ats))
  unfolding published_change
  changes-AllNoZero msg store [] h = tt
  changes-AllNoZero msg store (at ∷ ats) h = (
    change-NoZero at.0 at.1 (level_at msg store at) (level_at-EntriesOf msg store at h),
    changes-AllNoZero msg store ats h,
  )

  -- No event that is published about a sound book lowers the best bid that the executor has cached
  -- for a platform, though the message may be that the platform has withdrawn it; and the executor's
  -- handling of it returns.
  pub publish_change-BidsFrom :
      (now : ℤ) (msg : NormalizedOrderbook) (store : OrderbookStore) (bbo : CachedBbo) (q : String)
      (x : Decimal)
      → IsSoundBook (find_book msg.market_id msg.clob_token_id store)
      → BidsFrom q x bbo
      → StillBids q x (handle_changes (received (publish_change now msg store).1) bbo)
  unfolding publish_change
  publish_change-BidsFrom now msg store bbo q x h held =
      handle_changes-BidsFrom q x _ bbo (changes-AllNoZero msg store (affected_prices msg) h) held
