-- ===== src/Orderbook/Invariant.antt =====
-- The good order of a book (sides in order of price, at most one size for each platform at a price,
-- no size zero) through the steps of `apply` of orderbook.rs.
use wup_demo.Prelude.{
  contains, String, Bool, true, false, Option, none, some, List, [], ◌∷◌, ◌≡◌, refl, inl, inr,
  Option-cases, Bool-cases, ◌⊎◌,
}
use wup_demo.Decimal.{Decimals, Decimal}
use wup_demo.OrderedMap
use wup_demo.OrderedMap.{Sorted}
use wup_demo.OrderedMap.Laws.{entry-Sorted, change_values-Sorted, retain-Sorted}
use wup_demo.OrderedMap.Values.{
  AllValues, entry-AllValues, change_values-AllValues, retain-AllValues,
}
use wup_demo.PlatformSizes
use wup_demo.PlatformSizes.Laws.{IsLevel, IsLevel-new, set-IsLevel, clear_platform-IsLevel}
use wup_demo.Schema.{PriceLevel, OrderbookMessageType, OrderbookUpdate, NormalizedOrderbook}
use wup_demo.Orderbook.{
  Levels, Orderbook, new, set_level, insert_level_platform, apply_update_platform, insert_levels,
  insert_optional_levels, clear_platform, apply_snapshot_platform, apply_updates,
  apply_delta_platform, cleanup_empty_levels, recalculate_system_bbo, track_platform,
  update_exchange_bbo, is_buy, apply_levels, update_metadata, apply,
}

pub Type-cases :
    (t : OrderbookMessageType)
    → (t ≡ OrderbookMessageType.snapshot) ⊎ (t ≡ OrderbookMessageType.delta)
Type-cases OrderbookMessageType.snapshot = inl refl
Type-cases OrderbookMessageType.delta = inr refl

module _ ⦃D : Decimals⦄ where
  pub record IsSide (levels : Levels) : Type 0 where
    pub sorted : Sorted levels
    pub sound : AllValues IsLevel levels

  pub record IsSound (ob : Orderbook) : Type 0 where
    pub bids : IsSide ob.bids
    pub asks : IsSide ob.asks

  entry-IsSide :
      (price : Decimal) (platform : String) (size : Decimal) (levels : Levels)
      → IsSide levels
      → IsSide (OrderedMap.entry price PlatformSizes.new (PlatformSizes.set platform size) levels)
  entry-IsSide price platform size levels h = record {
    sorted = entry-Sorted price PlatformSizes.new (PlatformSizes.set platform size) levels h.sorted;
    sound =
        entry-AllValues IsLevel price PlatformSizes.new (PlatformSizes.set platform size) levels
          (set-IsLevel platform size PlatformSizes.new IsLevel-new)
          (λ s k. set-IsLevel platform size s k) h.sound;
  }

  clear-IsSide :
      (platform : String) (levels : Levels)
      → IsSide levels
      → IsSide (OrderedMap.change_values (PlatformSizes.clear_platform platform) levels)
  clear-IsSide platform levels h = record {
    sorted = change_values-Sorted _ levels h.sorted;
    sound = change_values-AllValues IsLevel _ levels (clear_platform-IsLevel platform) h.sound;
  }

  pub set_level-IsSound :
      (is_bid : Bool) (price : Decimal) (platform : String) (size : Decimal) (ob : Orderbook)
      → IsSound ob
      → IsSound (set_level is_bid price platform size ob)
  set_level-IsSound true price platform size ob h = record {
    bids = entry-IsSide price platform size ob.bids h.bids;
    asks = h.asks;
  }
  set_level-IsSound false price platform size ob h = record {
    bids = h.bids;
    asks = entry-IsSide price platform size ob.asks h.asks;
  }

  pub clear_platform-IsSound :
      (platform : String) (ob : Orderbook) → IsSound ob → IsSound (clear_platform platform ob)
  unfolding clear_platform
  clear_platform-IsSound platform ob h = record {
    bids = clear-IsSide platform ob.bids h.bids;
    asks = clear-IsSide platform ob.asks h.asks;
  }

  pub insert_level_platform-IsSound :
      (price size : String) (is_bid : Bool) (platform : String) (ob : Orderbook)
      → IsSound ob
      → IsSound (insert_level_platform price size is_bid platform ob)
  unfolding insert_level_platform
  insert_level_platform-IsSound price size is_bid platform ob h =
      elim (Option-cases (D.from_str price)) [
        | inl e ↦ rw (e, insert_level_platform) h
        | inr (p, e) ↦
            rw (e, insert_level_platform)
              (elim (Option-cases (D.from_str size)) [
                | inl f ↦ rw (f, insert_level_platform) h
                | inr (d, f) ↦
                    rw (f, insert_level_platform)
                      (elim (Bool-cases (D.is_zero d)) [
                        | inl z ↦ rw (z, insert_level_platform) h
                        | inr z ↦
                            rw (z, insert_level_platform)
                              (set_level-IsSound is_bid p platform d ob h)
                      ])
              ])
      ]

  pub apply_update_platform-IsSound :
      (platform : String) (u : OrderbookUpdate) (ob : Orderbook)
      → IsSound ob
      → IsSound (apply_update_platform platform u ob)
  unfolding apply_update_platform
  apply_update_platform-IsSound platform u ob h = elim (Option-cases (D.from_str u.price)) [
    | inl e ↦ rw (e, apply_update_platform) h
    | inr (p, e) ↦
        rw (e, apply_update_platform)
          (elim (Option-cases (D.from_str u.size)) [
            | inl f ↦ rw (f, apply_update_platform) h
            | inr (d, f) ↦
                rw (f, apply_update_platform) (set_level-IsSound (is_buy u.side) p platform d ob h)
          ])
  ]

  pub insert_levels-IsSound :
      (is_bid : Bool) (platform : String) (levels : List PriceLevel) (ob : Orderbook)
      → IsSound ob
      → IsSound (insert_levels is_bid platform levels ob)
  unfolding insert_levels
  insert_levels-IsSound is_bid platform [] ob h = h
  insert_levels-IsSound is_bid platform (l ∷ levels) ob h =
      insert_levels-IsSound is_bid platform levels _
        (insert_level_platform-IsSound l.price l.size is_bid platform ob h)

  pub insert_optional_levels-IsSound :
      (is_bid : Bool) (platform : String) (levels : Option (List PriceLevel)) (ob : Orderbook)
      → IsSound ob
      → IsSound (insert_optional_levels is_bid platform levels ob)
  unfolding insert_optional_levels
  insert_optional_levels-IsSound is_bid platform none ob h = h
  insert_optional_levels-IsSound is_bid platform (some levels) ob h =
      insert_levels-IsSound is_bid platform levels ob h

  pub apply_updates-IsSound :
      (platform : String) (us : List OrderbookUpdate) (ob : Orderbook)
      → IsSound ob
      → IsSound (apply_updates platform us ob)
  unfolding apply_updates
  apply_updates-IsSound platform [] ob h = h
  apply_updates-IsSound platform (u ∷ us) ob h =
      apply_updates-IsSound platform us _ (apply_update_platform-IsSound platform u ob h)

  pub apply_levels-IsSound :
      (msg : NormalizedOrderbook) (ob : Orderbook) → IsSound ob → IsSound (apply_levels msg ob)
  unfolding apply_levels apply_snapshot_platform apply_delta_platform
  apply_levels-IsSound msg ob h = elim (Type-cases msg.message_type) [
    | inl e ↦ rw e (
        insert_optional_levels-IsSound false msg.platform msg.asks _ (
          insert_optional_levels-IsSound true msg.platform msg.bids _
            (clear_platform-IsSound msg.platform ob h)))
    | inr e ↦ rw e (elim (Option-cases msg.updates) [
      | inl f ↦ rw f h
      | inr (us, f) ↦ rw f (apply_updates-IsSound msg.platform us ob h)
    ])
  ]

  pub cleanup_empty_levels-IsSound :
      (ob : Orderbook) → IsSound ob → IsSound (cleanup_empty_levels ob)
  unfolding cleanup_empty_levels
  cleanup_empty_levels-IsSound ob h = record {
    bids = record {
      sorted = retain-Sorted _ ob.bids h.bids.sorted;
      sound = retain-AllValues IsLevel _ ob.bids h.bids.sound;
    };
    asks = record {
      sorted = retain-Sorted _ ob.asks h.asks.sorted;
      sound = retain-AllValues IsLevel _ ob.asks h.asks.sound;
    };
  }

  -- The steps around the levels do not touch them.
  pub prepare-IsSound :
      (msg : NormalizedOrderbook) (ob : Orderbook)
      → IsSound ob
      → IsSound (update_exchange_bbo msg (track_platform msg.platform ob))
  unfolding update_exchange_bbo track_platform
  prepare-IsSound msg ob h = elim (Bool-cases (contains ob.platforms msg.platform)) [
    | inl e ↦ rw e (record { bids = h.bids; asks = h.asks })
    | inr e ↦ rw e (record { bids = h.bids; asks = h.asks })
  ]

  pub recalculate_system_bbo-IsSound :
      (ob : Orderbook) → IsSound ob → IsSound (recalculate_system_bbo ob)
  unfolding recalculate_system_bbo
  recalculate_system_bbo-IsSound ob h = record { bids = h.bids; asks = h.asks }

  pub update_metadata-IsSound :
      (msg : NormalizedOrderbook) (ob : Orderbook) → IsSound ob → IsSound (update_metadata msg ob)
  unfolding update_metadata
  update_metadata-IsSound msg ob h = record { bids = h.bids; asks = h.asks }

  pub apply-IsSound :
      (msg : NormalizedOrderbook) (ob : Orderbook) → IsSound ob → IsSound (apply msg ob)
  unfolding apply
  apply-IsSound msg ob h = update_metadata-IsSound msg _ (
      cleanup_empty_levels-IsSound _
        (recalculate_system_bbo-IsSound _ (apply_levels-IsSound msg _ (prepare-IsSound msg ob h))))

  pub new-IsSound : (token market : String) → IsSound (new token market)
  new-IsSound token market = record {
    bids = record { sorted = tt; sound = tt };
    asks = record { sorted = tt; sound = tt };
  }
