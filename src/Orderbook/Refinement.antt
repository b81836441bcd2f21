-- ===== src/Orderbook/Refinement.antt =====
-- `apply` of orderbook.rs and its specification, in terms of the view of a book.
use wup_demo.Prelude.{
  String, str_eq, Bool, true, false, List, [], ◌∷◌, ◌≡◌, ◌≢◌, refl, ◌∙◌, inl, inr, arith,
  Option-cases, fun_ext, ap, eq_iff,
}
use wup_demo.Decimal.{Decimals, Decimal}
use wup_demo.Schema.{PriceLevel, OrderbookUpdate, NormalizedOrderbook}
use wup_demo.Orderbook.{
  Orderbook, apply_snapshot_platform, apply_delta_platform, apply_levels, apply, update_metadata,
  recalculate_system_bbo, track_platform, update_exchange_bbo, cleanup_empty_levels,
}
use wup_demo.Orderbook.View.{
  Quotes, view, quote, quote_level, quote_update, quote_levels, quote_updates, or_empty, erase,
}
use wup_demo.Orderbook.Invariant.{
  IsSound, Type-cases, apply_levels-IsSound, prepare-IsSound, recalculate_system_bbo-IsSound,
  clear_platform-IsSound, insert_optional_levels-IsSound,
}
use wup_demo.Orderbook.Steps.{
  view-insert_optional_levels, view-updates, view-clear_platform, view-cleanup,
}

module _ ⦃D : Decimals⦄ where
  view-apply_snapshot :
      (msg : NormalizedOrderbook) (ob : Orderbook)
      → IsSound ob
      → view (apply_snapshot_platform msg msg.platform ob)
        ≡ quote_levels false msg.platform
            (or_empty msg.asks)
            (quote_levels true msg.platform (or_empty msg.bids) (erase msg.platform (view ob)))
  unfolding apply_snapshot_platform
  view-apply_snapshot msg ob h =
      let p = msg.platform in
      let c = clear_platform-IsSound p ob h in
      view-insert_optional_levels false p msg.asks _
        (insert_optional_levels-IsSound true p msg.bids _ c)
      ∙ ap (quote_levels false p (or_empty msg.asks)) (
          view-insert_optional_levels true p msg.bids _ c
          ∙ ap (quote_levels true p (or_empty msg.bids)) (view-clear_platform p ob h))

  view-apply_delta :
      (msg : NormalizedOrderbook) (ob : Orderbook)
      → IsSound ob
      → view (apply_delta_platform msg msg.platform ob)
        ≡ quote_updates msg.platform (or_empty msg.updates) (view ob)
  unfolding apply_delta_platform quote_updates
  view-apply_delta msg ob h = elim (Option-cases msg.updates) [
    | inl e ↦ rw (e, quote_updates)
    | inr (us, e) ↦ rw e (view-updates msg.platform us ob h)
  ]

  view-apply_levels :
      (msg : NormalizedOrderbook) (ob : Orderbook)
      → IsSound ob
      → view (apply_levels msg ob) ≡ quote msg (view ob)
  unfolding apply_levels quote apply_snapshot_platform apply_delta_platform
  view-apply_levels msg ob h = elim (Type-cases msg.message_type) [
    | inl e ↦ rw (e, quote) (view-apply_snapshot msg ob h)
    | inr e ↦ rw (e, quote) (view-apply_delta msg ob h)
  ]

  -- The view is a matter of the levels alone.
  view_of_levels : (a b : Orderbook) → a.bids ≡ b.bids → a.asks ≡ b.asks → view a ≡ view b
  unfolding view
  view_of_levels a b e f = fun_ext λ side. fun_ext λ r.
      fun_ext λ x. (elim side as (λ s. view a s r x ≡ view b s r x) [ true ↦ rw e | false ↦ rw f ])

  view-prepare :
      (msg : NormalizedOrderbook) (ob : Orderbook)
      → view (update_exchange_bbo msg (track_platform msg.platform ob)) ≡ view ob
  unfolding update_exchange_bbo track_platform
  view-prepare msg ob = view_of_levels _ _ (ground arith) (ground arith)

  view-recalculate : (ob : Orderbook) → view (recalculate_system_bbo ob) ≡ view ob
  unfolding recalculate_system_bbo
  view-recalculate ob = view_of_levels _ _ refl refl

  view-metadata :
      (msg : NormalizedOrderbook) (ob : Orderbook) → view (update_metadata msg ob) ≡ view ob
  unfolding update_metadata
  view-metadata msg ob = view_of_levels _ _ refl refl

  -- On a sound book, the view after `apply` is the one that the message prescribes: a snapshot
  -- replaces every quote of its platform, a delta changes the quotes it names, and what is no number
  -- is passed over.
  pub view-apply :
      (msg : NormalizedOrderbook) (ob : Orderbook)
      → IsSound ob
      → view (apply msg ob) ≡ quote msg (view ob)
  unfolding apply
  view-apply msg ob h =
      let prepared = prepare-IsSound msg ob h in
      let changed = apply_levels-IsSound msg _ prepared in
      view-metadata msg _
      ∙ view-cleanup _ (recalculate_system_bbo-IsSound _ changed)
      ∙ view-recalculate _
      ∙ view-apply_levels msg _ prepared
      ∙ ap (quote msg) (view-prepare msg ob)

  -- What a message does not touch: the quotes of the other platforms.
  quote_level-other :
      (side : Bool) (p : String) (l : PriceLevel) (q : Quotes) (b : Bool) (r : String) (x : Decimal)
      → str_eq p r ≡ false
      → quote_level side p l q b r x ≡ q b r x
  unfolding quote_level
  quote_level-other side p l q b r x h = ground arith

  quote_update-other :
      (p : String) (u : OrderbookUpdate) (q : Quotes) (b : Bool) (r : String) (x : Decimal)
      → str_eq p r ≡ false
      → quote_update p u q b r x ≡ q b r x
  unfolding quote_update
  quote_update-other p u q b r x h = ground arith

  quote_levels-other :
      (side : Bool) (p : String) (ls : List PriceLevel) (q : Quotes) (b : Bool) (r : String)
      (x : Decimal)
      → str_eq p r ≡ false
      → quote_levels side p ls q b r x ≡ q b r x
  unfolding quote_levels
  quote_levels-other side p [] q b r x h = refl
  quote_levels-other side p (l ∷ ls) q b r x h =
      quote_levels-other side p ls _ b r x h ∙ quote_level-other side p l q b r x h

  quote_updates-other :
      (p : String) (us : List OrderbookUpdate) (q : Quotes) (b : Bool) (r : String) (x : Decimal)
      → str_eq p r ≡ false
      → quote_updates p us q b r x ≡ q b r x
  unfolding quote_updates
  quote_updates-other p [] q b r x h = refl
  quote_updates-other p (u ∷ us) q b r x h =
      quote_updates-other p us _ b r x h ∙ quote_update-other p u q b r x h

  quote-other :
      (msg : NormalizedOrderbook) (q : Quotes) (b : Bool) (r : String) (x : Decimal)
      → str_eq msg.platform r ≡ false
      → quote msg q b r x ≡ q b r x
  unfolding quote
  quote-other msg q b r x h = elim (Type-cases msg.message_type) [
    | inl e ↦
        rw (e, quote)
          (quote_levels-other false msg.platform (or_empty msg.asks) _ b r x h
            ∙ quote_levels-other true msg.platform (or_empty msg.bids) _ b r x h
            ∙ rw h)
    | inr e ↦ rw (e, quote) (quote_updates-other msg.platform (or_empty msg.updates) q b r x h)
  ]

  -- A message of one platform, snapshot or delta, leaves every quote of the other platforms as it
  -- was, on both sides and at every price.
  pub apply_isolation :
      (msg : NormalizedOrderbook) (ob : Orderbook)
      → IsSound ob
      → (is_bid : Bool) (platform : String) (price : Decimal) → platform ≢ msg.platform
      → view (apply msg ob) is_bid platform price ≡ view ob is_bid platform price
  apply_isolation msg ob h b r x other =
      rw (view-apply msg ob h)
        (quote-other msg (view ob) b r x (ground (arith, eq_iff msg.platform r)))

  -- The view of the final book is that of the book whose best prices were calculated.
  pub view-settled :
      (msg : NormalizedOrderbook) (ob : Orderbook)
      → IsSound ob
      → view (update_metadata msg (cleanup_empty_levels (recalculate_system_bbo ob))) ≡ view ob
  view-settled msg ob h =
      view-metadata msg _
      ∙ view-cleanup _ (recalculate_system_bbo-IsSound ob h)
      ∙ view-recalculate ob
