-- ===== src/OrderedMap/Values.antt =====
-- A predicate on the values of an ordered map, and the operations that keep it.
use wup_demo.Prelude.{Bool, Option, none, some, [], ◌∷◌, arith}
use wup_demo.Decimal.{Decimals, Decimal}
use wup_demo.OrderedMap.{BTreeMap, get, entry, change_values, retain}

module _ ⦃D : Decimals⦄ {V : Type 0} where
  abbrev pub AllValues : (V → Type 0) → BTreeMap V → Type 0
  AllValues P [] = Unit
  AllValues P ((j, v) ∷ m) = P v × AllValues P m

  module _ (P : V → Type 0) where
    pub entry-AllValues :
        (k : Decimal) (d : V) (f : V → V) (m : BTreeMap V)
        → P (f d)
        → ((v : V) → P v → P (f v))
        → AllValues P m
        → AllValues P (entry k d f m)
    unfolding entry
    entry-AllValues k d f [] new keeps h = (new, tt)
    entry-AllValues k d f ((j, v) ∷ m) new keeps h =
        ground (arith, keeps v h.0, entry-AllValues k d f m new keeps h.1)

    pub change_values-AllValues :
        (f : V → V) (m : BTreeMap V)
        → ((v : V) → P v → P (f v))
        → AllValues P m
        → AllValues P (change_values f m)
    unfolding change_values
    change_values-AllValues f [] keeps h = tt
    change_values-AllValues f ((j, v) ∷ m) keeps h =
        (keeps v h.0, change_values-AllValues f m keeps h.1)

    pub retain-AllValues :
        (test : V → Bool) (m : BTreeMap V) → AllValues P m → AllValues P (retain test m)
    unfolding retain
    retain-AllValues test [] h = tt
    retain-AllValues test ((j, v) ∷ m) h = ground (arith, retain-AllValues test m h.1)

    -- What is found satisfies the predicate.
    abbrev pub AtSome : Option V → Type 0
    AtSome none = Unit
    AtSome (some v) = P v

    pub get-AllValues : (k : Decimal) (m : BTreeMap V) → AllValues P m → AtSome (get k m)
    unfolding get
    get-AllValues k [] h = tt
    get-AllValues k ((j, w) ∷ m) h = ground (arith, get-AllValues k m h.1)
