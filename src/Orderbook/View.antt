-- ===== src/Orderbook/View.antt =====
-- What a book says of each side, platform and price, and how a message should change that: the
-- specification of `apply`. A side is named by `is_bid`.
use wup_demo.Prelude.{
  String, str_eq, Bool, true, false, ◌&&◌, Option, none, some, List, [], ◌∷◌, if◌then◌else◌,
}
use wup_demo.Decimal.{Decimals, Decimal, eqb}
use wup_demo.OrderedMap
use wup_demo.PlatformSizes
use wup_demo.PlatformSizes.{PlatformSizes}
use wup_demo.Schema.{PriceLevel, OrderbookMessageType, OrderbookUpdate, NormalizedOrderbook}
use wup_demo.Orderbook.{Levels, Orderbook, is_buy}

abbrev pub same : Bool → Bool → Bool
same true b = b
same false true = false
same false false = true

module _ ⦃D : Decimals⦄ where
  -- The size of each side, platform and price, if there is one.
  abbrev pub Quotes : Type 0
  Quotes = Bool → String → Decimal → Option Decimal

  abbrev pub levels_of : Bool → Orderbook → Levels
  levels_of true ob = ob.bids
  levels_of false ob = ob.asks

  abbrev pub size_in : String → Option PlatformSizes → Option Decimal
  size_in platform none = none
  size_in platform (some sizes) = PlatformSizes.get platform sizes

  unfoldable pub view : Orderbook → Quotes
  view ob is_bid platform price = size_in platform (OrderedMap.get price (levels_of is_bid ob))

  abbrev pub unless_zero : Decimal → Option Decimal
  unless_zero size = if D.is_zero size then none else some size

  abbrev pub put : Bool → Decimal → String → Decimal → Quotes → Quotes
  put is_bid price platform size q b r x =
      if same is_bid b && (str_eq platform r && eqb price x) then unless_zero size else q b r x

  abbrev pub erase : String → Quotes → Quotes
  erase platform q b r x = if str_eq platform r then none else q b r x

  -- A level of a snapshot counts if both of its texts are numbers and its size is not zero.
  unfoldable pub quote_level : Bool → String → PriceLevel → Quotes → Quotes
  quote_level is_bid platform level q b r x = elim (D.from_str level.price) [
    | none ↦ q b r x
    | some price ↦ elim (D.from_str level.size) [
      | none ↦ q b r x
      | some size ↦ if D.is_zero size then q b r x else put is_bid price platform size q b r x
    ]
  ]

  -- An update counts if both of its texts are numbers; the size zero takes the quote away.
  unfoldable pub quote_update : String → OrderbookUpdate → Quotes → Quotes
  quote_update platform update q b r x = elim (D.from_str update.price) [
    | none ↦ q b r x
    | some price ↦ elim (D.from_str update.size) [
      | none ↦ q b r x
      | some size ↦ put (is_buy update.side) price platform size q b r x
    ]
  ]

  unfoldable pub quote_levels : Bool → String → List PriceLevel → Quotes → Quotes
  quote_levels is_bid platform [] q = q
  quote_levels is_bid platform (level ∷ levels) q =
      quote_levels is_bid platform levels (quote_level is_bid platform level q)

  unfoldable pub quote_updates : String → List OrderbookUpdate → Quotes → Quotes
  quote_updates platform [] q = q
  quote_updates platform (update ∷ updates) q =
      quote_updates platform updates (quote_update platform update q)

  abbrev pub or_empty {ℓ} : {A : Type ℓ} → Option (List A) → List A
  or_empty none = []
  or_empty (some xs) = xs

  -- A snapshot replaces all that its platform quotes; a delta changes the quotes it names.
  unfoldable pub quote : NormalizedOrderbook → Quotes → Quotes
  quote msg q = elim msg.message_type [
    | OrderbookMessageType.snapshot ↦
        quote_levels false msg.platform (or_empty msg.asks)
          (quote_levels true msg.platform (or_empty msg.bids) (erase msg.platform q))
    | OrderbookMessageType.delta ↦ quote_updates msg.platform (or_empty msg.updates) q
  ]
