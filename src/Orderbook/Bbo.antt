-- ===== src/Orderbook/Bbo.antt =====
-- `recalculate_system_bbo` of orderbook.rs, and the highest and lowest prices that platforms quote.
use mathlib.Core.List.{reverse, reverse-cons}
use wup_demo.Prelude.{
  ℕ, ◌≤◌, ◌<◌, String, string_eq, true, false, Option, none, some, [], ◌∷◌, ◌++◌, ◌≡◌, refl, ◌∙◌,
  inl, inr, ◌⊎◌, arith, Bool-cases, eq_refl, if◌then◌else◌,
}
use wup_demo.Decimal.{Decimals, Decimal}
use wup_demo.HashMap
use wup_demo.OrderedMap
use wup_demo.OrderedMap.{Sorted, Above}
use wup_demo.PlatformSizes
use wup_demo.PlatformSizes.{PlatformSizes}
use wup_demo.PlatformSizes.Laws.{get_of_is_empty_level}
use wup_demo.Orderbook.{Levels, first_price}
use wup_demo.Orderbook.View.{size_in}

module _ ⦃D : Decimals⦄ where
  abbrev pub quoted : Levels → String → Decimal → Option Decimal
  quoted levels r x = size_in r (OrderedMap.get x levels)

  -- `best` is the least price at which a platform quotes, and is missing only if none does.
  abbrev pub IsLeast : (String → Decimal → Option Decimal) → Option Decimal → Type 0
  IsLeast q none = (r : String) (x : Decimal) → q r x ≡ none
  IsLeast q (some best) =
      ((r : String) × (d : Decimal) × (q r best ≡ some d))
      × ((r : String) (x d : Decimal) → q r x ≡ some d → D.rank best ≤ D.rank x)

  -- The same with the greatest price.
  abbrev pub IsGreatest : (String → Decimal → Option Decimal) → Option Decimal → Type 0
  IsGreatest q none = (r : String) (x : Decimal) → q r x ≡ none
  IsGreatest q (some best) =
      ((r : String) × (d : Decimal) × (q r best ≡ some d))
      × ((r : String) (x d : Decimal) → q r x ≡ some d → D.rank x ≤ D.rank best)

  -- A level with orders has an order.
  some_order :
      (s : PlatformSizes)
      → PlatformSizes.is_empty s ≡ false
      → (r : String) × (d : Decimal) × (PlatformSizes.get r s ≡ some d)
  unfolding PlatformSizes.is_empty PlatformSizes.get HashMap.get
  some_order s h = go s.sizes h
    where
      go :
          (m : HashMap.HashMap String Decimal)
          → HashMap.is_empty m ≡ false
          → (r : String) × (d : Decimal) × (HashMap.get r m ≡ some d)
      go [] h = absurd (cc)
      go ((r, d) ∷ m) h = (r, d, rw (eq_refl r))

  quoted_at :
      (j : Decimal) (s : PlatformSizes) (m : Levels) (r : String)
      → quoted ((j, s) ∷ m) r j ≡ PlatformSizes.get r s
  unfolding OrderedMap.get
  quoted_at j s m r = ground arith

  -- What a list of levels quotes, its first level quotes at its price, or the rest does above it.
  quoted-cons :
      (j : Decimal) (s : PlatformSizes) (m : Levels) (r : String) (x d : Decimal)
      → quoted ((j, s) ∷ m) r x ≡ some d
      → ((D.rank x ≡ D.rank j) × (PlatformSizes.get r s ≡ some d))
        ⊎ ((D.rank j < D.rank x) × (quoted m r x ≡ some d))
  unfolding OrderedMap.get
  quoted-cons j s m r x d h = ground arith

  none-quoted-cons :
      (j : Decimal) (s : PlatformSizes) (m : Levels) (r : String) (x : Decimal)
      → PlatformSizes.get r s ≡ none
      → quoted m r x ≡ none
      → quoted ((j, s) ∷ m) r x ≡ none
  unfolding OrderedMap.get
  none-quoted-cons j s m r x h k = ground arith

  quoted_rest :
      (j : Decimal) (s : PlatformSizes) (m : Levels) (r : String) (x : Decimal)
      → D.rank j < D.rank x
      → quoted ((j, s) ∷ m) r x ≡ quoted m r x
  unfolding OrderedMap.get
  quoted_rest j s m r x h = ground arith

  quoted-Above :
      (n : ℕ) (m : Levels) (r : String) (x d : Decimal)
      → Above n m
      → quoted m r x ≡ some d
      → n < D.rank x
  unfolding OrderedMap.get
  quoted-Above n [] r x d a h = ground arith
  quoted-Above n ((j, s) ∷ m) r x d a h = ground (arith, quoted-Above n m r x d a.1)

  none-quoted-nil : (r : String) (x : Decimal) → quoted [] r x ≡ none
  unfolding OrderedMap.get
  none-quoted-nil r x = refl

  empty_level :
      (j : Decimal) (s : PlatformSizes) (m : Levels) (r : String) (x : Decimal)
      → PlatformSizes.is_empty s ≡ true
      → quoted m r x ≡ none
      → quoted ((j, s) ∷ m) r x ≡ none
  empty_level j s m r x e h = none-quoted-cons j s m r x (get_of_is_empty_level r s e) h

  -- An empty level in front changes neither the least price nor the greatest.
  IsLeast-empty :
      (j : Decimal) (s : PlatformSizes) (m : Levels) (best : Option Decimal)
      → Above (D.rank j) m
      → PlatformSizes.is_empty s ≡ true
      → IsLeast (quoted m) best
      → IsLeast (quoted ((j, s) ∷ m)) best
  IsLeast-empty j s m none a e h = λ r x. empty_level j s m r x e (h r x)
  IsLeast-empty j s m (some best) a e h =
      let (r, d, q) = h.0 in
      (
        (r, d, quoted_rest j s m r best (quoted-Above (D.rank j) m r best d a q) ∙ q),
        λ r' x d' k. elim (quoted-cons j s m r' x d' k) [
          | inl here ↦ absurd (cc (here.1, get_of_is_empty_level r' s e))
          | inr there ↦ h.1 r' x d' there.1
        ],
      )

  IsLeast-here :
      (j : Decimal) (s : PlatformSizes) (m : Levels)
      → PlatformSizes.is_empty s ≡ false
      → IsLeast (quoted ((j, s) ∷ m)) (some j)
  IsLeast-here j s m e =
      let (r, d, q) = some_order s e in
      (
        (r, d, quoted_at j s m r ∙ q),
        λ r' x d' k. elim (quoted-cons j s m r' x d' k) [
          | inl here ↦ omega arith
          | inr there ↦ omega arith
        ],
      )

  first_price-nil : first_price [] ≡ none
  unfolding first_price
  first_price-nil = refl

  first_price-cons :
      (j : Decimal) (s : PlatformSizes) (m : Levels)
      → first_price ((j, s) ∷ m) ≡ (if PlatformSizes.is_empty s then first_price m else some j)
  unfolding first_price
  first_price-cons j s m = ground arith

  -- The first price with orders is the least one.
  pub first_price-IsLeast : (m : Levels) → Sorted m → IsLeast (quoted m) (first_price m)
  first_price-IsLeast [] h = unfold first_price in none-quoted-nil
  first_price-IsLeast ((j, s) ∷ m) h =
      rw (first_price-cons j s m) (elim (Bool-cases (PlatformSizes.is_empty s)) [
        | inl e ↦ rw e (IsLeast-empty j s m _ h.0 e (first_price-IsLeast m h.1))
        | inr e ↦ rw e (IsLeast-here j s m e)
      ])

  abbrev or_else : Option Decimal → Option Decimal → Option Decimal
  or_else none o = o
  or_else (some p) o = some p

  first_price-append :
      (xs ys : Levels) → first_price (xs ++ ys) ≡ or_else (first_price xs) (first_price ys)
  unfolding first_price
  first_price-append [] ys = refl
  first_price-append (x ∷ xs) ys = ground (arith, first_price-append xs ys)

  -- From the top, a level in front of the others counts only if none of them has orders.
  first_price-reverse :
      (l : Decimal × PlatformSizes) (m : Levels)
      → first_price (reverse (l ∷ m)) ≡ or_else (first_price (reverse m)) (first_price (l ∷ []))
  first_price-reverse l m = rw (reverse-cons l m) (first_price-append (reverse m) (l ∷ []))

  IsGreatest-cons :
      (j : Decimal) (s : PlatformSizes) (m : Levels) (best : Option Decimal)
      → Above (D.rank j) m
      → IsGreatest (quoted m) best
      → IsGreatest
          (quoted ((j, s) ∷ m))
          (or_else best (if PlatformSizes.is_empty s then none else some j))
  IsGreatest-cons j s m (some best) a h =
      let (r, d, q) = h.0 in
      let over = quoted-Above (D.rank j) m r best d a q in
      (
        (r, d, quoted_rest j s m r best over ∙ q),
        λ r' x d' k. elim (quoted-cons j s m r' x d' k) [
          | inl here ↦ omega arith
          | inr there ↦ h.1 r' x d' there.1
        ],
      )
  IsGreatest-cons j s m none a h = elim (Bool-cases (PlatformSizes.is_empty s)) [
    | inl e ↦ rw e (λ r x. empty_level j s m r x e (h r x))
    | inr e ↦ rw e (
        let (r, d, q) = some_order s e in
        (
          (r, d, quoted_at j s m r ∙ q),
          λ r' x d' k. elim (quoted-cons j s m r' x d' k) [
            | inl here ↦ omega arith
            | inr there ↦ absurd (cc (there.1, h r' x))
          ],
        ))
  ]

  -- The first price with orders from the top is the greatest one.
  pub first_price-reverse-IsGreatest :
      (m : Levels) → Sorted m → IsGreatest (quoted m) (first_price (reverse m))
  first_price-reverse-IsGreatest [] h = unfold first_price in none-quoted-nil
  first_price-reverse-IsGreatest ((j, s) ∷ m) h =
      rw (first_price-reverse (j, s) m, first_price-cons j s [], first_price-nil)
        (IsGreatest-cons j s m _ h.0 (first_price-reverse-IsGreatest m h.1))
