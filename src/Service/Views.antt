-- ===== src/Service/Views.antt =====
-- What service.rs publishes of a level, in terms of the view of the book.
use wup_demo.Prelude.{
  String, string_eq, str_eq, Bool, true, false, Option, none, some, List, [], ◌∷◌, ◌≡◌, refl, ◌∙◌,
  sym, ap, map, Option-cases, Bool-cases, inl, inr, if◌then◌else◌,
}
use wup_demo.Decimal.{Decimals, Decimal}
use wup_demo.DashMap.{DashMaps}
use wup_demo.HashMap
use wup_demo.HashMap.{HashMap}
use wup_demo.HashMap.Laws.{get_of_is_empty}
use wup_demo.OrderedMap
use wup_demo.PlatformSizes
use wup_demo.PlatformSizes.{PlatformSizes}
use wup_demo.Schema.{NormalizedOrderbook, OrderSide, PlatformEntry, AggregatedPriceLevel}
use wup_demo.Orderbook.{Orderbook, Levels}
use wup_demo.Orderbook.View.{view, size_in}
use wup_demo.Orderbook.Queries.{
  platform_entry, aggregated_level, get_aggregated_bid_level, get_aggregated_ask_level,
}
use wup_demo.Store.{OrderbookStore, find_book, get_aggregated_bid, get_aggregated_ask}
use wup_demo.Service.{change_of_level, level_at, published_change}

-- The size that a list of entries gives for a platform.
abbrev pub entry_of : String → List PlatformEntry → Option String
entry_of r [] = none
entry_of r (e ∷ es) = let rest = entry_of r es in if str_eq e.platform r then some e.size else rest

abbrev pub on_bids : OrderSide → Bool
on_bids OrderSide.buy = true
on_bids OrderSide.sell = false

module _ ⦃D : Decimals⦄ where
  abbrev pub shown : Option Decimal → Option String
  shown none = none
  shown (some d) = some (D.to_string d)

  entry_of-sizes :
      (r : String) (m : HashMap String Decimal)
      → entry_of r (map platform_entry m) ≡ shown (HashMap.get r m)
  unfolding HashMap.get
  entry_of-sizes r [] = refl
  entry_of-sizes r ((k, d) ∷ m) = elim (Bool-cases (str_eq k r)) [
    | inl h ↦ rw h
    | inr h ↦ rw h (entry_of-sizes r m)
  ]

  -- The platforms of a level that may be missing.
  abbrev entries : Option AggregatedPriceLevel → List PlatformEntry
  entries none = []
  entries (some level) = level.platforms

  entry_of-level :
      (r : String) (price : Decimal) (levels : Levels)
      → entry_of r (entries (aggregated_level price (OrderedMap.get price levels)))
        ≡ shown (size_in r (OrderedMap.get price levels))
  unfolding aggregated_level PlatformSizes.get PlatformSizes.is_empty
  entry_of-level r price levels = elim (Option-cases (OrderedMap.get price levels)) [
    | inl e ↦ rw e
    | inr (sizes, e) ↦ rw e (elim (Bool-cases (HashMap.is_empty sizes.sizes)) [
      | inl h ↦ rw h (ap shown (sym (get_of_is_empty r sizes.sizes h)))
      | inr h ↦ rw h (entry_of-sizes r sizes.sizes)
    ])
  ]

  bid-entries :
      (r price : String) (d : Decimal) (ob : Orderbook)
      → D.from_str price ≡ some d
      → entry_of r (entries (get_aggregated_bid_level price ob)) ≡ shown (view ob true r d)
  unfolding get_aggregated_bid_level view
  bid-entries r price d ob e = rw (e, get_aggregated_bid_level) (entry_of-level r d ob.bids)

  ask-entries :
      (r price : String) (d : Decimal) (ob : Orderbook)
      → D.from_str price ≡ some d
      → entry_of r (entries (get_aggregated_ask_level price ob)) ≡ shown (view ob false r d)
  unfolding get_aggregated_ask_level view
  ask-entries r price d ob e = rw (e, get_aggregated_ask_level) (entry_of-level r d ob.asks)

module _ ⦃D : Decimals⦄ ⦃M : DashMaps⦄ where
  entries-change :
      (price : String) (side : OrderSide) (o : Option AggregatedPriceLevel)
      → (change_of_level price side o).platforms ≡ entries o
  entries-change price side none = refl
  entries-change price side (some level) = refl

  entries-level_at :
      (msg : NormalizedOrderbook) (store : OrderbookStore) (ob : Orderbook) (price r : String)
      (side : OrderSide) (d : Decimal)
      → find_book msg.market_id msg.clob_token_id store ≡ some ob
      → D.from_str price ≡ some d
      → entry_of r (entries (level_at msg store (price, side))) ≡ shown (view ob (on_bids side) r d)
  unfolding level_at get_aggregated_bid get_aggregated_ask
  entries-level_at msg store ob price r OrderSide.buy d found e =
      rw (found, get_aggregated_bid) (bid-entries r price d ob e)
  entries-level_at msg store ob price r OrderSide.sell d found e =
      rw (found, get_aggregated_ask) (ask-entries r price d ob e)

  -- The change that is published for a price and a side lists, for every platform, what the
  -- platform quotes there in the stored book, printed, and no platform that quotes nothing.
  pub published_change-view :
      (msg : NormalizedOrderbook) (store : OrderbookStore) (ob : Orderbook) (price r : String)
      (side : OrderSide) (d : Decimal)
      → find_book msg.market_id msg.clob_token_id store ≡ some ob
      → D.from_str price ≡ some d
      → entry_of r (published_change msg store (price, side)).platforms
        ≡ shown (view ob (on_bids side) r d)
  unfolding published_change
  published_change-view msg store ob price r side d found e =
      ap (entry_of r) (entries-change price side (level_at msg store (price, side)))
      ∙ entries-level_at msg store ob price r side d found e
