-- ===== src/OrderedMap.antt =====
-- `std::collections::BTreeMap` with decimal keys, as the list of its entries in the order of
-- iteration (by rising key). A key is found by its number, whatever its spelling.
pub mod Laws
pub mod Values
use wup_demo.Prelude.{
  Bool, Option, none, some, List, [], ◌∷◌, ℕ, compare, Ordering, ◌<◌, map, if◌then◌else◌,
}
use wup_demo.Decimal.{Decimals, Decimal}

module _ ⦃D : Decimals⦄ where
  abbrev pub BTreeMap : Type 0 → Type 0
  BTreeMap V = List (Decimal × V)

module _ ⦃D : Decimals⦄ {V : Type 0} where
  unfoldable pub get : Decimal → BTreeMap V → Option V
  get k [] = none
  get k ((j, v) ∷ m) =
      let rest = get k m in
      elim (compare (D.rank k) (D.rank j)) [
        | Ordering.lt ↦ none
        | Ordering.eq ↦ some v
        | Ordering.gt ↦ rest
      ]

  -- `entry(k).or_insert_with(fresh)`, and then `change` on the value.
  unfoldable pub entry : Decimal → V → (V → V) → BTreeMap V → BTreeMap V
  entry k fresh change [] = (k, change fresh) ∷ []
  entry k fresh change ((j, v) ∷ m) =
      let rest = entry k fresh change m in
      elim (compare (D.rank k) (D.rank j)) [
        | Ordering.lt ↦ (k, change fresh) ∷ (j, v) ∷ m
        | Ordering.eq ↦ (j, change v) ∷ m
        | Ordering.gt ↦ (j, v) ∷ rest
      ]

  -- `for v in values_mut() { change v }`.
  unfoldable pub change_values : (V → V) → BTreeMap V → BTreeMap V
  change_values change [] = []
  change_values change ((j, v) ∷ m) = (j, change v) ∷ change_values change m

  -- `retain(|_, v| test(v))`.
  unfoldable pub retain : (V → Bool) → BTreeMap V → BTreeMap V
  retain test [] = []
  retain test ((j, v) ∷ m) = let rest = retain test m in if test v then (j, v) ∷ rest else rest

  -- All keys lie above the number `n`.
  abbrev pub Above : ℕ → BTreeMap V → Type 0
  Above n [] = Unit
  Above n ((j, v) ∷ m) = (n < D.rank j) × Above n m

  -- The keys rise strictly.
  abbrev pub Sorted : BTreeMap V → Type 0
  Sorted [] = Unit
  Sorted ((j, v) ∷ m) = Above (D.rank j) m × Sorted m

  abbrev pub values : BTreeMap V → List V
  values = map (λ p. p.1)
