-- ===== src/HashMap.antt =====
-- `std::collections::HashMap` as an association list with distinct keys. The order of the list is
-- the order of iteration, which the standard library leaves open.
pub mod Laws
use wup_demo.Prelude.{
  Eq, Bool, true, false, Option, none, some, List, [], ◌∷◌, ◌≡◌, map, if◌then◌else◌,
}

abbrev pub HashMap : Type 0 → Type 0 → Type 0
HashMap K V = List (K × V)

module _ {K V : Type 0} ⦃e : Eq K⦄ where
  unfoldable pub get : K → HashMap K V → Option V
  get k [] = none
  get k ((j, v) ∷ m) = if e.beq j k then some v else get k m

  -- `insert`: the new value takes the place of an old one.
  unfoldable pub insert : K → V → HashMap K V → HashMap K V
  insert k v [] = (k, v) ∷ []
  insert k v ((j, w) ∷ m) =
      let rest = insert k v m in if e.beq j k then (k, v) ∷ m else (j, w) ∷ rest

  unfoldable pub remove : K → HashMap K V → HashMap K V
  remove k [] = []
  remove k ((j, w) ∷ m) = let rest = remove k m in if e.beq j k then m else (j, w) ∷ rest

  unfoldable pub contains_key : K → HashMap K V → Bool
  contains_key k m = elim (get k m) [ none ↦ false | some v ↦ true ]

  -- No key stands twice.
  abbrev pub Distinct : HashMap K V → Type 0
  Distinct [] = Unit
  Distinct ((j, v) ∷ m) = (get j m ≡ none) × Distinct m

module _ {K V : Type 0} where
  abbrev pub keys : HashMap K V → List K
  keys = map (λ p. p.0)

  abbrev pub values : HashMap K V → List V
  values = map (λ p. p.1)

  abbrev pub is_empty : HashMap K V → Bool
  is_empty [] = true
  is_empty (p ∷ m) = false
