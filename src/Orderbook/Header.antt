-- ===== src/Orderbook/Header.antt =====
-- The fields of a book that no change of a level touches, and what `apply` does to them.
use wup_demo.Prelude.{
  contains, ℕ, ◌+◌, ◌%◌, String, string_eq, Bool, true, false, Option, none, some, List, [], ◌∷◌,
  ◌++◌, ◌≡◌, refl, ◌∙◌, inl, inr, arith, ap, Option-cases, Bool-cases, if◌then◌else◌,
}
use wup_demo.Decimal.{Decimals, Decimal}
use wup_demo.HashMap.{HashMap}
use wup_demo.Schema.{PriceLevel, OrderbookUpdate, NormalizedOrderbook}
use wup_demo.Orderbook.{
  Orderbook, u64_mod, set_level, insert_level_platform, apply_update_platform, insert_levels,
  insert_optional_levels, clear_platform, apply_snapshot_platform, apply_updates,
  apply_delta_platform, apply_levels, apply, track_platform, update_exchange_bbo, insert_some,
  update_metadata, cleanup_empty_levels, recalculate_system_bbo,
}
use wup_demo.Orderbook.Invariant.{Type-cases}

module _ ⦃D : Decimals⦄ where
  pub record Header : Type 0 where
    pub clob_token_id : String
    pub market_id : String
    pub platforms : List String
    pub exchange_best_bid : HashMap String String
    pub exchange_best_ask : HashMap String String
    pub update_count : ℕ

  abbrev pub header : Orderbook → Header
  header ob = record {
    clob_token_id = ob.clob_token_id;
    market_id = ob.market_id;
    platforms = ob.platforms;
    exchange_best_bid = ob.exchange_best_bid;
    exchange_best_ask = ob.exchange_best_ask;
    update_count = ob.update_count;
  }

  header-set_level :
      (side : Bool) (price : Decimal) (p : String) (d : Decimal) (ob : Orderbook)
      → header (set_level side price p d ob) ≡ header ob
  header-set_level true price p d ob = refl
  header-set_level false price p d ob = refl

  header-insert_level :
      (price size : String) (side : Bool) (p : String) (ob : Orderbook)
      → header (insert_level_platform price size side p ob) ≡ header ob
  unfolding insert_level_platform
  header-insert_level price size true p ob = ground arith
  header-insert_level price size false p ob = ground arith

  header-update :
      (p : String) (u : OrderbookUpdate) (ob : Orderbook)
      → header (apply_update_platform p u ob) ≡ header ob
  unfolding apply_update_platform
  header-update p u ob = ground arith

  header-insert_levels :
      (side : Bool) (p : String) (ls : List PriceLevel) (ob : Orderbook)
      → header (insert_levels side p ls ob) ≡ header ob
  unfolding insert_levels
  header-insert_levels side p [] ob = refl
  header-insert_levels side p (l ∷ ls) ob =
      header-insert_levels side p ls _ ∙ header-insert_level l.price l.size side p ob

  header-insert_optional_levels :
      (side : Bool) (p : String) (ls : Option (List PriceLevel)) (ob : Orderbook)
      → header (insert_optional_levels side p ls ob) ≡ header ob
  unfolding insert_optional_levels
  header-insert_optional_levels side p none ob = refl
  header-insert_optional_levels side p (some ls) ob = header-insert_levels side p ls ob

  header-updates :
      (p : String) (us : List OrderbookUpdate) (ob : Orderbook)
      → header (apply_updates p us ob) ≡ header ob
  unfolding apply_updates
  header-updates p [] ob = refl
  header-updates p (u ∷ us) ob = header-updates p us _ ∙ header-update p u ob

  header-snapshot :
      (msg : NormalizedOrderbook) (ob : Orderbook)
      → header (apply_snapshot_platform msg msg.platform ob) ≡ header ob
  unfolding apply_snapshot_platform clear_platform
  header-snapshot msg ob =
      header-insert_optional_levels false msg.platform msg.asks _
      ∙ header-insert_optional_levels true msg.platform msg.bids _

  header-delta :
      (msg : NormalizedOrderbook) (ob : Orderbook)
      → header (apply_delta_platform msg msg.platform ob) ≡ header ob
  unfolding apply_delta_platform
  header-delta msg ob = elim (Option-cases msg.updates) [
    | inl e ↦ rw e
    | inr (us, e) ↦ rw e (header-updates msg.platform us ob)
  ]

  header-apply_levels :
      (msg : NormalizedOrderbook) (ob : Orderbook) → header (apply_levels msg ob) ≡ header ob
  unfolding apply_levels
  header-apply_levels msg ob =
      ground (arith, Type-cases msg.message_type, header-snapshot msg ob, header-delta msg ob)

  abbrev pub with_platform : String → List String → List String
  with_platform p ps = if contains ps p then ps else ps ++ p ∷ []

  abbrev counted : Header → Header
  counted h = record h { update_count = (h.update_count + 1) % u64_mod }

  header-prepare :
      (msg : NormalizedOrderbook) (ob : Orderbook)
      → header (update_exchange_bbo msg (track_platform msg.platform ob)) ≡ record (header ob) {
        platforms = with_platform msg.platform ob.platforms;
        exchange_best_bid = insert_some msg.platform msg.best_bid ob.exchange_best_bid;
        exchange_best_ask = insert_some msg.platform msg.best_ask ob.exchange_best_ask;
      }
  unfolding track_platform update_exchange_bbo
  header-prepare msg ob = elim (Bool-cases (contains ob.platforms msg.platform)) [
    | inl e ↦ rw e
    | inr e ↦ rw e
  ]

  -- A message keeps the market and asset of a book, puts its platform on the list of platforms
  -- unless it is there, records the best prices that it names as those of its platform, and adds one
  -- to the counter, modulo 2^64.
  pub header-apply :
      (msg : NormalizedOrderbook) (ob : Orderbook)
      → header (apply msg ob) ≡ record {
        clob_token_id = ob.clob_token_id;
        market_id = ob.market_id;
        platforms = with_platform msg.platform ob.platforms;
        exchange_best_bid = insert_some msg.platform msg.best_bid ob.exchange_best_bid;
        exchange_best_ask = insert_some msg.platform msg.best_ask ob.exchange_best_ask;
        update_count = (ob.update_count + 1) % u64_mod;
      }
  unfolding apply update_metadata cleanup_empty_levels recalculate_system_bbo
  header-apply msg ob = ap counted (header-apply_levels msg _ ∙ header-prepare msg ob)
