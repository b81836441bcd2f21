-- ===== src/Orderbook/Best.antt =====
-- The best prices of a book after a message.
use mathlib.Core.List.{reverse}
use wup_demo.Prelude.{String, Bool, none, true, false, ◌≡◌, sym, subst, refl}
use wup_demo.Decimal.{Decimals, Decimal}
use wup_demo.OrderedMap
use wup_demo.Schema.{NormalizedOrderbook}
use wup_demo.Orderbook.{
  Orderbook, new, apply, update_metadata, cleanup_empty_levels, recalculate_system_bbo, first_price,
}
use wup_demo.Orderbook.View.{Quotes, view}
use wup_demo.Orderbook.Invariant.{
  IsSound, apply_levels-IsSound, prepare-IsSound, apply-IsSound, new-IsSound,
}
use wup_demo.Orderbook.Bbo.{
  IsLeast, IsGreatest, quoted, first_price-IsLeast, first_price-reverse-IsGreatest,
}
use wup_demo.Orderbook.Refinement.{view-settled}

module _ ⦃D : Decimals⦄ where
  view-bids : (ob : Orderbook) → view ob true ≡ quoted ob.bids
  unfolding view
  view-bids ob = refl

  view-asks : (ob : Orderbook) → view ob false ≡ quoted ob.asks
  unfolding view
  view-asks ob = refl

  best_of_settled :
      (msg : NormalizedOrderbook) (ob : Orderbook)
      → IsSound ob
      → let t = update_metadata msg (cleanup_empty_levels (recalculate_system_bbo ob)) in
        IsGreatest (view t true) t.system_best_bid × IsLeast (view t false) t.system_best_ask
  unfolding update_metadata cleanup_empty_levels recalculate_system_bbo
  best_of_settled msg ob h =
      let e = view-settled msg ob h in
      (
        subst (λ (q : Quotes). IsGreatest (q true) (first_price (reverse ob.bids))) (sym e)
            (subst (λ q. IsGreatest q (first_price (reverse ob.bids))) (sym (view-bids ob))
              (first_price-reverse-IsGreatest ob.bids h.bids.sorted)),
        subst (λ (q : Quotes). IsLeast (q false) (first_price ob.asks)) (sym e)
            (subst (λ q. IsLeast q (first_price ob.asks)) (sym (view-asks ob))
              (first_price-IsLeast ob.asks h.asks.sorted)),
      )

  -- After any message, the system best bid is the highest price at which some platform bids, and
  -- the system best ask the lowest at which some platform asks; each is missing exactly if no
  -- platform quotes on its side.
  pub apply-best :
      (msg : NormalizedOrderbook) (ob : Orderbook)
      → IsSound ob
      → IsGreatest (view (apply msg ob) true) (apply msg ob).system_best_bid
        × IsLeast (view (apply msg ob) false) (apply msg ob).system_best_ask
  unfolding apply
  apply-best msg ob h =
      best_of_settled msg _ (apply_levels-IsSound msg _ (prepare-IsSound msg ob h))

  -- A book as it stands between messages: its sides are in order and its best prices are right.
  pub record IsSettled (ob : Orderbook) : Type 0 where
    pub sound : IsSound ob
    pub best_bid : IsGreatest (view ob true) ob.system_best_bid
    pub best_ask : IsLeast (view ob false) ob.system_best_ask

  pub apply-IsSettled :
      (msg : NormalizedOrderbook) (ob : Orderbook) → IsSettled ob → IsSettled (apply msg ob)
  apply-IsSettled msg ob h =
      let best = apply-best msg ob h.sound in
      record { sound = apply-IsSound msg ob h.sound; best_bid = best.0; best_ask = best.1 }

  no_quotes :
      (token market r : String) (b : Bool) (x : Decimal) → view (new token market) b r x ≡ none
  unfolding view OrderedMap.get
  no_quotes token market r true x = refl
  no_quotes token market r false x = refl

  pub new-IsSettled : (token market : String) → IsSettled (new token market)
  new-IsSettled token market = record {
    sound = new-IsSound token market;
    best_bid = λ r x. no_quotes token market r true x;
    best_ask = λ r x. no_quotes token market r false x;
  }
