-- ===== src/Orderbook/Steps.antt =====
-- What each step of `apply` does to the view of a book.
use wup_demo.Prelude.{
  String, str_eq, Bool, true, false, Option, none, some, List, [], ◌∷◌, ◌≡◌, refl, ◌∙◌, inl, inr,
  arith, Option-cases, Bool-cases, fun_ext, if◌then◌else◌, ◌&&◌, not, ap,
}
use wup_demo.Decimal.{Decimals, Decimal, eqb}
use wup_demo.OrderedMap
use wup_demo.OrderedMap.Laws.{get-entry, get-change_values, get-retain, get_or, get-eqb}
use wup_demo.OrderedMap.Values.{get-AllValues, AtSome}
use wup_demo.PlatformSizes
use wup_demo.PlatformSizes.{PlatformSizes}
use wup_demo.PlatformSizes.Laws.{
  IsLevel, IsLevel-new, get-set, get-clear_platform, get_of_is_empty_level, get-new,
}
use wup_demo.Schema.{PriceLevel, OrderbookUpdate}
use wup_demo.Orderbook.{
  Levels, Orderbook, set_level, insert_level_platform, apply_update_platform, insert_levels,
  insert_optional_levels, clear_platform, apply_updates, cleanup_empty_levels, is_buy,
}
use wup_demo.Orderbook.View.{
  view, size_in, put, erase, quote_level, quote_update, quote_levels, quote_updates, or_empty,
  unless_zero,
}
use wup_demo.Orderbook.Invariant.{
  IsSide, IsSound, insert_level_platform-IsSound, apply_update_platform-IsSound,
}

module _ ⦃D : Decimals⦄ where
  size_in-set :
      (p r : String) (d : Decimal) (o : Option PlatformSizes)
      → AtSome IsLevel o
      → size_in r (some (PlatformSizes.set p d (get_or PlatformSizes.new o)))
        ≡ (if str_eq p r then unless_zero d else size_in r o)
  size_in-set p r d none h = rw (get-set p r d PlatformSizes.new IsLevel-new) (rw get-new)
  size_in-set p r d (some s) h = get-set p r d s h

  -- One side of a book after one size was set.
  side-set :
      (price x : Decimal) (p r : String) (d : Decimal) (levels : Levels)
      → IsSide levels
      → size_in r (
          OrderedMap.get x
            (OrderedMap.entry price PlatformSizes.new (PlatformSizes.set p d) levels))
        ≡ (if eqb price x
            then (if str_eq p r then unless_zero d else size_in r (OrderedMap.get price levels))
            else size_in r (OrderedMap.get x levels))
  side-set price x p r d levels h =
      rw (get-entry price x PlatformSizes.new (PlatformSizes.set p d) levels)
        (elim (Bool-cases (eqb price x)) [
          | inl e ↦ rw e (size_in-set p r d _ (get-AllValues IsLevel price levels h.sound))
          | inr e ↦ rw e
        ])

  side-put :
      (price x : Decimal) (p r : String) (d : Decimal) (levels : Levels)
      → IsSide levels
      → size_in r (
          OrderedMap.get x
            (OrderedMap.entry price PlatformSizes.new (PlatformSizes.set p d) levels))
        ≡ (if str_eq p r && eqb price x then unless_zero d else size_in r (OrderedMap.get x levels))
  side-put price x p r d levels h =
      ground (arith, side-set price x p r d levels h, get-eqb price x levels)

  view-set_level :
      (side : Bool) (price : Decimal) (p : String) (d : Decimal) (ob : Orderbook)
      → IsSound ob
      → (b : Bool) (r : String) (x : Decimal)
      → view (set_level side price p d ob) b r x ≡ put side price p d (view ob) b r x
  unfolding view
  view-set_level true price p d ob h true r x = side-put price x p r d ob.bids h.bids
  view-set_level true price p d ob h false r x = refl
  view-set_level false price p d ob h true r x = refl
  view-set_level false price p d ob h false r x = side-put price x p r d ob.asks h.asks

  view-insert_level :
      (price size : String) (side : Bool) (p : String) (ob : Orderbook)
      → IsSound ob
      → view (insert_level_platform price size side p ob)
        ≡ quote_level side p (record { price = price; size = size }) (view ob)
  unfolding insert_level_platform quote_level
  view-insert_level price size side p ob h = fun_ext λ b. fun_ext λ r. fun_ext λ x.
      elim (Option-cases (D.from_str price)) [
        | inl e ↦ rw (e, insert_level_platform, quote_level)
        | inr (c, e) ↦
            rw (e, insert_level_platform, quote_level)
              (elim (Option-cases (D.from_str size)) [
                | inl f ↦ rw (f, insert_level_platform, quote_level)
                | inr (d, f) ↦
                    rw (f, insert_level_platform, quote_level)
                      (elim (Bool-cases (D.is_zero d)) [
                        | inl z ↦ rw (z, insert_level_platform, quote_level)
                        | inr z ↦ nonzero c d b r x z
                      ])
              ])
      ]
    where
      nonzero :
          (c d : Decimal) (b : Bool) (r : String) (x : Decimal)
          → D.is_zero d ≡ false
          → view (if D.is_zero d then ob else set_level side c p d ob) b r x
            ≡ (if D.is_zero d then view ob b r x else put side c p d (view ob) b r x)
      nonzero c d b r x z = rw z (rw z at (view-set_level side c p d ob h b r x))

  view-update :
      (p : String) (u : OrderbookUpdate) (ob : Orderbook)
      → IsSound ob
      → view (apply_update_platform p u ob) ≡ quote_update p u (view ob)
  unfolding apply_update_platform quote_update
  view-update p u ob h = fun_ext λ b. fun_ext λ r. fun_ext λ x.
      elim (Option-cases (D.from_str u.price)) [
        | inl e ↦ rw (e, apply_update_platform, quote_update)
        | inr (c, e) ↦
            rw (e, apply_update_platform, quote_update)
              (elim (Option-cases (D.from_str u.size)) [
                | inl f ↦ rw (f, apply_update_platform, quote_update)
                | inr (d, f) ↦
                    rw (f, apply_update_platform, quote_update)
                      (view-set_level (is_buy u.side) c p d ob h b r x)
              ])
      ]

  pub view-insert_levels :
      (side : Bool) (p : String) (levels : List PriceLevel) (ob : Orderbook)
      → IsSound ob
      → view (insert_levels side p levels ob) ≡ quote_levels side p levels (view ob)
  unfolding insert_levels quote_levels
  view-insert_levels side p [] ob h = refl
  view-insert_levels side p (l ∷ levels) ob h =
      view-insert_levels side p levels _ (insert_level_platform-IsSound l.price l.size side p ob h)
      ∙ ap (quote_levels side p levels) (view-insert_level l.price l.size side p ob h)

  pub view-insert_optional_levels :
      (side : Bool) (p : String) (levels : Option (List PriceLevel)) (ob : Orderbook)
      → IsSound ob
      → view (insert_optional_levels side p levels ob)
        ≡ quote_levels side p (or_empty levels) (view ob)
  unfolding insert_optional_levels quote_levels
  view-insert_optional_levels side p none ob h = refl
  view-insert_optional_levels side p (some levels) ob h = view-insert_levels side p levels ob h

  pub view-updates :
      (p : String) (us : List OrderbookUpdate) (ob : Orderbook)
      → IsSound ob
      → view (apply_updates p us ob) ≡ quote_updates p us (view ob)
  unfolding apply_updates quote_updates
  view-updates p [] ob h = refl
  view-updates p (u ∷ us) ob h =
      view-updates p us _ (apply_update_platform-IsSound p u ob h)
      ∙ ap (quote_updates p us) (view-update p u ob h)

  size_in-clear :
      (p r : String) (o : Option PlatformSizes)
      → AtSome IsLevel o
      → size_in r (elim o [ none ↦ none | some s ↦ some (PlatformSizes.clear_platform p s) ])
        ≡ (if str_eq p r then none else size_in r o)
  size_in-clear p r none h = ground arith
  size_in-clear p r (some s) h = get-clear_platform p r s h

  side-clear :
      (p r : String) (x : Decimal) (levels : Levels)
      → IsSide levels
      → size_in r
          (OrderedMap.get x (OrderedMap.change_values (PlatformSizes.clear_platform p) levels))
        ≡ (if str_eq p r then none else size_in r (OrderedMap.get x levels))
  side-clear p r x levels h =
      rw (get-change_values (PlatformSizes.clear_platform p) x levels)
        (size_in-clear p r _ (get-AllValues IsLevel x levels h.sound))

  pub view-clear_platform :
      (p : String) (ob : Orderbook) → IsSound ob → view (clear_platform p ob) ≡ erase p (view ob)
  unfolding view clear_platform
  view-clear_platform p ob h = fun_ext λ b. fun_ext λ r. fun_ext λ x.
      (elim b as (λ b. view (clear_platform p ob) b r x ≡ erase p (view ob) b r x) [
        | true ↦ side-clear p r x ob.bids h.bids
        | false ↦ side-clear p r x ob.asks h.asks
      ])

  -- A level without sizes shows nothing, so that taking it away changes nothing.
  size_in-cleanup :
      (r : String) (o : Option PlatformSizes)
      → size_in r (elim o [
        | none ↦ none
        | some s ↦ if not (PlatformSizes.is_empty s) then some s else none
      ])
        ≡ size_in r o
  size_in-cleanup r none = refl
  size_in-cleanup r (some s) = elim (Bool-cases (PlatformSizes.is_empty s)) [
    | inl e ↦ rw e (rw (get_of_is_empty_level r s e))
    | inr e ↦ rw e
  ]

  pub view-cleanup : (ob : Orderbook) → IsSound ob → view (cleanup_empty_levels ob) ≡ view ob
  unfolding view cleanup_empty_levels
  view-cleanup ob h = fun_ext λ b. fun_ext λ r. fun_ext λ x.
      (elim b as (λ b. view (cleanup_empty_levels ob) b r x ≡ view ob b r x) [
        | true ↦ rw (get-retain _ x ob.bids h.bids.sorted) (size_in-cleanup r _)
        | false ↦ rw (get-retain _ x ob.asks h.asks.sorted) (size_in-cleanup r _)
      ])
