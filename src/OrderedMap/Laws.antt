-- ===== src/OrderedMap/Laws.antt =====
-- The laws of the ordered map: what an operation does to each key, and that the order is kept.
use wup_demo.Prelude.{
  Bool, true, Option, none, some, [], ◌∷◌, ◌≡◌, refl, ℕ, ◌≤◌, ◌<◌, if◌then◌else◌, arith,
}
use wup_demo.Decimal.{Decimals, Decimal, eqb}
use wup_demo.OrderedMap.{BTreeMap, get, entry, change_values, retain, Above, Sorted}

module _ ⦃D : Decimals⦄ {V : Type 0} where
  -- The value at a key, or the value for a new entry.
  abbrev pub get_or : V → Option V → V
  get_or d none = d
  get_or d (some v) = v

  pub get-entry :
      (k i : Decimal) (d : V) (f : V → V) (m : BTreeMap V)
      → get i (entry k d f m) ≡ (if eqb k i then some (f (get_or d (get k m))) else get i m)
  unfolding get entry
  get-entry k i d f [] = ground arith
  get-entry k i d f ((j, v) ∷ m) = ground (arith, get-entry k i d f m)

  pub get-change_values :
      (f : V → V) (i : Decimal) (m : BTreeMap V)
      → get i (change_values f m) ≡ elim (get i m) [ none ↦ none | some v ↦ some (f v) ]
  unfolding get change_values
  get-change_values f i [] = refl
  get-change_values f i ((j, v) ∷ m) = ground (arith, get-change_values f i m)

  pub Above-mono : (a b : ℕ) (m : BTreeMap V) → a ≤ b → Above b m → Above a m
  Above-mono a b [] h s = tt
  Above-mono a b ((j, v) ∷ m) h s = (omega arith, Above-mono a b m h s.1)

  pub get_of_Above : (i : Decimal) (m : BTreeMap V) → Above (D.rank i) m → get i m ≡ none
  unfolding get
  get_of_Above i [] h = refl
  get_of_Above i ((j, v) ∷ m) h = ground arith

  pub retain-Above : (n : ℕ) (p : V → Bool) (m : BTreeMap V) → Above n m → Above n (retain p m)
  unfolding retain
  retain-Above n p [] h = tt
  retain-Above n p ((j, v) ∷ m) h = ground (arith, retain-Above n p m h.1)

  pub retain-Sorted : (p : V → Bool) (m : BTreeMap V) → Sorted m → Sorted (retain p m)
  unfolding retain
  retain-Sorted p [] h = tt
  retain-Sorted p ((j, v) ∷ m) h =
      ground (arith, retain-Sorted p m h.1, retain-Above (D.rank j) p m h.0)

  pub change_values-Above :
      (n : ℕ) (f : V → V) (m : BTreeMap V) → Above n m → Above n (change_values f m)
  unfolding change_values
  change_values-Above n f [] h = tt
  change_values-Above n f ((j, v) ∷ m) h = (h.0, change_values-Above n f m h.1)

  pub change_values-Sorted : (f : V → V) (m : BTreeMap V) → Sorted m → Sorted (change_values f m)
  unfolding change_values
  change_values-Sorted f [] h = tt
  change_values-Sorted f ((j, v) ∷ m) h =
      (change_values-Above (D.rank j) f m h.0, change_values-Sorted f m h.1)

  pub entry-Above :
      (n : ℕ) (k : Decimal) (d : V) (f : V → V) (m : BTreeMap V)
      → n < D.rank k
      → Above n m
      → Above n (entry k d f m)
  unfolding entry
  entry-Above n k d f [] b h = (b, tt)
  entry-Above n k d f ((j, v) ∷ m) b h = ground (arith, entry-Above n k d f m b h.1)

  pub entry-Sorted :
      (k : Decimal) (d : V) (f : V → V) (m : BTreeMap V) → Sorted m → Sorted (entry k d f m)
  unfolding entry
  entry-Sorted k d f [] h = (tt, tt)
  entry-Sorted k d f ((j, v) ∷ m) h = ground (
    arith,
    entry-Sorted k d f m h.1,
    entry-Above (D.rank j) k d f m,
    Above-mono (D.rank k) (D.rank j) m,
  )

  -- A key whose value fails the test is gone; the others keep their values.
  pub get-retain :
      (p : V → Bool) (i : Decimal) (m : BTreeMap V)
      → Sorted m
      → get i (retain p m) ≡ elim (get i m) [ none ↦ none | some v ↦ if p v then some v else none ]
  unfolding get retain
  get-retain p i [] h = refl
  get-retain p i ((j, v) ∷ m) h =
      ground (arith, get-retain p i m h.1, get_of_Above i m, Above-mono (D.rank i) (D.rank j) m)

  -- Two spellings of one number are one key.
  pub get-eqb : (a b : Decimal) (m : BTreeMap V) → eqb a b ≡ true → get a m ≡ get b m
  unfolding get
  get-eqb a b [] h = refl
  get-eqb a b ((j, v) ∷ m) h = ground (arith, get-eqb a b m)
