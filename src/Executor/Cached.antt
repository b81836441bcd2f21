-- ===== src/Executor/Cached.antt =====
-- What a published change does to the cached price of a platform.
use wup_demo.Executor.{Error, decimal_parse}
use wup_demo.Prelude.{
  ◌≢◌, ◌⊎◌, refl, true, ◌≤◌, String, string_eq, pair_eq, str_eq, eq_iff, Bool, false, Option, none,
  some, List, [], ◌∷◌, ◌≡◌, ◌∙◌, sym, ap, arith, Option-cases, Bool-cases, inl, inr, if◌then◌else◌,
}
use wup_demo.Decimal.{Decimals, Decimal, lt}
use wup_demo.DashMap.{DashMaps, DashMap}
use wup_demo.Executor.BboCache.{
  PlatformSize, PriceChange, CachedBbo, offer_price, higher, lower, change_best, change_side,
  handle_platforms, handle_changes,
}

module _ ⦃D : Decimals⦄ where
  -- The price a platform is cached with after it was seen to quote one.
  abbrev pub better_of : (Decimal → Decimal → Bool) → Decimal → Option Decimal → Option Decimal
  better_of better price none = some price
  better_of better price (some current) = some (if better price current then price else current)

  -- A message as it is published, in which no size is zero.
  abbrev pub NoZero : List PlatformSize → Type 0
  NoZero [] = Unit
  NoZero (p ∷ ps) =
      ((size : Decimal) → D.from_str p.size ≡ some size → D.is_zero size ≡ false) × NoZero ps

  abbrev pub AllNoZero : List PriceChange → Type 0
  AllNoZero [] = Unit
  AllNoZero (c ∷ cs) = NoZero c.platforms × AllNoZero cs

module _ ⦃D : Decimals⦄ ⦃M : DashMaps⦄ where
  get-offer_price :
      (better : Decimal → Decimal → Bool) (p q : String) (price : Decimal)
      (best : DashMap String Decimal)
      → M.get q (offer_price better p price best)
        ≡ (if str_eq p q then better_of better price (M.get p best) else M.get q best)
  unfolding offer_price
  get-offer_price better p q price best = elim (Option-cases (M.get p best)) [
    | inl e ↦ rw (e, offer_price) (M.get-insert p q price best)
    | inr (current, e) ↦
        rw (e, offer_price)
          (elim (Bool-cases (better price current)) [
            | inl h ↦ rw h (M.get-insert p q price best)
            | inr h ↦ rw h (elim (Bool-cases (str_eq p q)) [
              | inl s ↦ rw s (ap (λ k. M.get k best) (sym ((eq_iff p q).0 s)) ∙ e)
              | inr s ↦ rw s
            ])
          ])
  ]

  -- What one size at one price does to the cached prices of a side: the price of the platform
  -- becomes the better of the two, or nothing changes because the size is zero and another price is
  -- cached, or there is no result because the price to go is the one cached.
  abbrev pub Changed :
      (Decimal → Decimal → Bool)
      → String
      → Decimal
      → Decimal
      → DashMap String Decimal
      → Option (DashMap String Decimal)
      → Type 0
  Changed better p price size best none =
      (D.is_zero size ≡ true)
      × (current : Decimal) × (M.get p best ≡ some current)
      × (D.rank current ≡ D.rank price)
  Changed better p price size best (some after) =
      (D.is_zero size ≡ false
        × ((q : String)
            → M.get q after
              ≡ (if str_eq p q then better_of better price (M.get p best) else M.get q best)))
      ⊎ (D.is_zero size ≡ true
          × after ≡ best
          × ((current : Decimal) → M.get p best ≡ some current → D.rank current ≢ D.rank price))

  -- What it does to the cached prices: to those of the side that the text names, and to no other.
  abbrev pub SideChanged :
      String → String → Decimal → Decimal → CachedBbo → Option CachedBbo → Type 0
  SideChanged side p price size bbo none =
      (side ≡ "buy" × Changed higher p price size bbo.best_bids none)
      ⊎ (side ≡ "sell" × Changed lower p price size bbo.best_asks none)
  SideChanged side p price size bbo (some after) =
      (side ≡ "buy"
        × Changed higher p price size bbo.best_bids (some after.best_bids)
        × after.best_asks ≡ bbo.best_asks)
      ⊎ ((side ≡ "sell"
            × Changed lower p price size bbo.best_asks (some after.best_asks)
            × after.best_bids ≡ bbo.best_bids)
          ⊎ (str_eq side "buy" ≡ false × str_eq side "sell" ≡ false × after ≡ bbo))

  -- The platform bids at the price or above it.
  abbrev pub BidsFrom : String → Decimal → CachedBbo → Type 0
  BidsFrom q x bbo = (y : Decimal) × ((M.get q bbo.best_bids ≡ some y) × (D.rank x ≤ D.rank y))

  -- A call that returns, and leaves it so.
  abbrev pub StillBids : String → Decimal → Option (CachedBbo × Option Error) → Type 0
  StillBids q x o = (step : CachedBbo × Option Error) × (o ≡ some step) × BidsFrom q x step.0

  offer-BidsFrom :
      (p q : String) (x price : Decimal) (bbo : CachedBbo)
      → BidsFrom q x bbo
      → BidsFrom q x (record bbo { best_bids = offer_price higher p price bbo.best_bids })
  offer-BidsFrom p q x price bbo (y, (e, le)) =
      let after = get-offer_price higher p q price bbo.best_bids in
      elim (Bool-cases (str_eq p q)) [
        | inl s ↦
            let same : M.get p bbo.best_bids ≡ some y =
              ap (λ k. M.get k bbo.best_bids) ((eq_iff p q).0 s) ∙ e in
            elim (Bool-cases (lt y price)) [
              | inl h ↦ (price, (after ∙ rw (s, same) (rw h), ground arith))
              | inr h ↦ (y, (after ∙ rw (s, same) (rw h), le))
            ]
        | inr s ↦ (y, (after ∙ rw s e, le))
      ]

  step-BidsFrom :
      (side p q : String) (x price size : Decimal) (bbo : CachedBbo)
      → D.is_zero size ≡ false
      → BidsFrom q x bbo
      → (after : CachedBbo) × (change_side side p price size bbo ≡ some after) × BidsFrom q x after
  unfolding change_side change_best
  step-BidsFrom side p q x price size bbo z held = elim (Bool-cases (str_eq side "buy")) [
    | inl b ↦ (
      record bbo { best_bids = offer_price higher p price bbo.best_bids },
      rw (b, z) refl,
      offer-BidsFrom p q x price bbo held,
    )
    | inr b ↦ elim (Bool-cases (str_eq side "sell")) [
      | inl s ↦ (
        record bbo { best_asks = offer_price lower p price bbo.best_asks },
        rw (b, s, z) refl,
        held,
      )
      | inr s ↦ (bbo, rw (b, s) refl, held)
    ]
  ]

  platforms-BidsFrom :
      (side q : String) (x price : Decimal) (ps : List PlatformSize) (bbo : CachedBbo)
      → NoZero ps
      → BidsFrom q x bbo
      → StillBids q x (handle_platforms side price ps bbo)
  unfolding handle_platforms
  platforms-BidsFrom side q x price [] bbo n h = ((bbo, none), refl, h)
  platforms-BidsFrom side q x price (p ∷ ps) bbo n h = elim (Option-cases (D.from_str p.size)) [
    | inl e ↦ ((bbo, some decimal_parse), rw (e, handle_platforms) refl, h)
    | inr (size, e) ↦
        let (after, stepped, held) =
          step-BidsFrom side p.platform q x price size bbo (n.0 size e) h in
        let (step, rest, still) = platforms-BidsFrom side q x price ps after n.1 held in
        (step, rw (e, handle_platforms, stepped) rest, still)
  ]

  -- While no size in the messages is zero, every call returns, and what the cache holds for the best
  -- bid of a platform never falls, whatever prices the platform still bids at.
  pub handle_changes-BidsFrom :
      (q : String) (x : Decimal) (cs : List PriceChange) (bbo : CachedBbo)
      → AllNoZero cs
      → BidsFrom q x bbo
      → StillBids q x (handle_changes cs bbo)
  unfolding handle_changes
  handle_changes-BidsFrom q x [] bbo n h = ((bbo, none), refl, h)
  handle_changes-BidsFrom q x (c ∷ cs) bbo n h = elim (Option-cases (D.from_str c.price)) [
    | inl e ↦ ((bbo, some decimal_parse), rw (e, handle_changes) refl, h)
    | inr (price, e) ↦
        let (step, done, held) = platforms-BidsFrom c.side q x price c.platforms bbo n.0 h in
        elim (Option-cases step.1) [
          | inl ok_so_far ↦
              let (last, rest, still) = handle_changes-BidsFrom q x cs step.0 n.1 held in
              (last, rw (e, handle_changes, done, ok_so_far) rest, still)
          | inr (error, failed) ↦
              ((step.0, some error), rw (e, handle_changes, done, failed) refl, held)
        ]
  ]
