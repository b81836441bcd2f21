-- ===== src/Executor/Extremes.antt =====
-- The entry of the greatest and of the least value of a map, in whatever order it is iterated.
use wup_demo.Prelude.{
  ◌≤◌, String, string_eq, str_eq, eq_iff, eq_refl, true, false, Option, none, some, List, [], ◌∷◌,
  ◌≡◌, ◌⊎◌, refl, sym, ap, arith, Bool-cases, inl, inr, fun_ext, subst,
}
use wup_demo.Decimal.{Decimals, Decimal, lt}
use wup_demo.DashMap.{DashMaps, DashMap}
use wup_demo.HashMap
use wup_demo.HashMap.{HashMap, Distinct}
use wup_demo.Executor.BboCache.{max_from, max_by_value, min_from, min_by_value}

module _ ⦃D : Decimals⦄ where
  here : (e : String × Decimal) (es : HashMap String Decimal) → HashMap.get e.0 (e ∷ es) ≡ some e.1
  unfolding HashMap.get
  here e es = ground (arith, eq_refl e.0)

  later :
      (e : String × Decimal) (es : HashMap String Decimal) (d : Distinct (e ∷ es))
      (r : String × Decimal)
      → HashMap.get r.0 es ≡ some r.1
      → HashMap.get r.0 (e ∷ es) ≡ some r.1
  unfolding HashMap.get
  later e es d r g = elim (Bool-cases (str_eq e.0 r.0)) [
    | inl s ↦ absurd (cc (g, d.0, ap (λ k. HashMap.get k es) ((eq_iff e.0 r.0).0 s)))
    | inr s ↦ rw s g
  ]

  -- A lookup in a list finds its first entry, or looks on.
  first :
      (e : String × Decimal) (es : HashMap String Decimal) (q : String) (y : Decimal)
      → str_eq e.0 q ≡ true
      → HashMap.get q (e ∷ es) ≡ some y
      → D.rank e.1 ≡ D.rank y
  unfolding HashMap.get
  first e es q y s g = ground arith

  rest :
      (e : String × Decimal) (es : HashMap String Decimal) (q : String) (y : Decimal)
      → str_eq e.0 q ≡ false
      → HashMap.get q (e ∷ es) ≡ some y
      → HashMap.get q es ≡ some y
  unfolding HashMap.get
  rest e es q y s g = ground arith

  min_from-nil : (b : String × Decimal) → min_from b [] ≡ b
  unfolding min_from
  min_from-nil b = refl

  min_from-cons :
      (b e : String × Decimal) (es : List (String × Decimal))
      → ((lt e.1 b.1 ≡ true) × (min_from b (e ∷ es) ≡ min_from e es))
        ⊎ ((lt e.1 b.1 ≡ false) × (min_from b (e ∷ es) ≡ min_from b es))
  unfolding min_from
  min_from-cons b e es = elim (Bool-cases (lt e.1 b.1)) [
    | inl h ↦ inl (h, rw h)
    | inr h ↦ inr (h, rw h)
  ]

  -- The entry that the scan ends with is the one it starts with or one of the list, and none of
  -- the list is better.
  min_from-in :
      (b : String × Decimal) (l : HashMap String Decimal)
      → Distinct l
      → (min_from b l ≡ b) ⊎ (HashMap.get (min_from b l).0 l ≡ some (min_from b l).1)
  min_from-in b [] d = inl (min_from-nil b)
  min_from-in b (e ∷ es) d = elim (min_from-cons b e es) [
    | inl (h, step) ↦ rw step (elim (min_from-in e es d.1) [
      | inl same ↦ inr (rw same (here e es))
      | inr there ↦ inr (later e es d (min_from e es) there)
    ])
    | inr (h, step) ↦ rw step (elim (min_from-in b es d.1) [
      | inl same ↦ inl same
      | inr there ↦ inr (later e es d (min_from b es) there)
    ])
  ]

  min_from-start :
      (b : String × Decimal) (l : HashMap String Decimal) → D.rank (min_from b l).1 ≤ D.rank b.1
  min_from-start b [] = rw (min_from-nil b) (omega arith)
  min_from-start b (e ∷ es) = elim (min_from-cons b e es) [
    | inl (h, step) ↦ rw step (ground (arith, min_from-start e es))
    | inr (h, step) ↦ rw step (ground (arith, min_from-start b es))
  ]

  min_from-bound :
      (b : String × Decimal) (l : HashMap String Decimal) (q : String) (y : Decimal)
      → HashMap.get q l ≡ some y
      → D.rank (min_from b l).1 ≤ D.rank y
  unfolding HashMap.get
  min_from-bound b [] q y g = absurd (cc g)
  min_from-bound b (e ∷ es) q y g = elim (Bool-cases (str_eq e.0 q)) [
    | inl s ↦
        let same : e.1 ≡ y = ground arith in
        elim (min_from-cons b e es) [
          | inl (h, step) ↦ rw (step, sym same) (ground (arith, min_from-start e es))
          | inr (h, step) ↦ rw (step, sym same) (ground (arith, min_from-start b es))
        ]
    | inr s ↦ elim (min_from-cons b e es) [
      | inl (h, step) ↦ rw step (min_from-bound e es q y (ground arith))
      | inr (h, step) ↦ rw step (min_from-bound b es q y (ground arith))
    ]
  ]

  max_from-nil : (b : String × Decimal) → max_from b [] ≡ b
  unfolding max_from
  max_from-nil b = refl

  max_from-cons :
      (b e : String × Decimal) (es : List (String × Decimal))
      → ((lt e.1 b.1 ≡ true) × (max_from b (e ∷ es) ≡ max_from b es))
        ⊎ ((lt e.1 b.1 ≡ false) × (max_from b (e ∷ es) ≡ max_from e es))
  unfolding max_from
  max_from-cons b e es = elim (Bool-cases (lt e.1 b.1)) [
    | inl h ↦ inl (h, rw h)
    | inr h ↦ inr (h, rw h)
  ]

  -- The entry that the scan ends with is the one it starts with or one of the list, and none of
  -- the list is better.
  max_from-in :
      (b : String × Decimal) (l : HashMap String Decimal)
      → Distinct l
      → (max_from b l ≡ b) ⊎ (HashMap.get (max_from b l).0 l ≡ some (max_from b l).1)
  max_from-in b [] d = inl (max_from-nil b)
  max_from-in b (e ∷ es) d = elim (max_from-cons b e es) [
    | inl (h, step) ↦ rw step (elim (max_from-in b es d.1) [
      | inl same ↦ inl same
      | inr there ↦ inr (later e es d (max_from b es) there)
    ])
    | inr (h, step) ↦ rw step (elim (max_from-in e es d.1) [
      | inl same ↦ inr (rw same (here e es))
      | inr there ↦ inr (later e es d (max_from e es) there)
    ])
  ]

  max_from-start :
      (b : String × Decimal) (l : HashMap String Decimal) → D.rank b.1 ≤ D.rank (max_from b l).1
  max_from-start b [] = rw (max_from-nil b) (omega arith)
  max_from-start b (e ∷ es) = elim (max_from-cons b e es) [
    | inl (h, step) ↦ rw step (ground (arith, max_from-start b es))
    | inr (h, step) ↦ rw step (ground (arith, max_from-start e es))
  ]

  max_from-bound :
      (b : String × Decimal) (l : HashMap String Decimal) (q : String) (y : Decimal)
      → HashMap.get q l ≡ some y
      → D.rank y ≤ D.rank (max_from b l).1
  unfolding HashMap.get
  max_from-bound b [] q y g = absurd (cc g)
  max_from-bound b (e ∷ es) q y g = elim (Bool-cases (str_eq e.0 q)) [
    | inl s ↦
        let same : e.1 ≡ y = ground arith in
        elim (max_from-cons b e es) [
          | inl (h, step) ↦ rw (step, sym same) (ground (arith, max_from-start b es))
          | inr (h, step) ↦ rw (step, sym same) (ground (arith, max_from-start e es))
        ]
    | inr s ↦ elim (max_from-cons b e es) [
      | inl (h, step) ↦ rw step (max_from-bound b es q y (ground arith))
      | inr (h, step) ↦ rw step (max_from-bound e es q y (ground arith))
    ]
  ]

  -- The best entry of a map, for an order on prices: no entry is better, and there is one unless the
  -- map is empty.
  abbrev pub IsBest :
      (Decimal → Decimal → Type 0) → (String → Option Decimal) → Option (String × Decimal) → Type 0
  IsBest AtLeast lookup none = (q : String) → lookup q ≡ none
  IsBest AtLeast lookup (some best) =
      (lookup best.0 ≡ some best.1)
      × ((q : String) (y : Decimal) → lookup q ≡ some y → AtLeast best.1 y)

  abbrev pub NotAbove : Decimal → Decimal → Type 0
  NotAbove x y = D.rank x ≤ D.rank y

  abbrev pub NotBelow : Decimal → Decimal → Type 0
  NotBelow x y = D.rank y ≤ D.rank x

  empty_lookup : (q : String) → HashMap.get {V = Decimal} q [] ≡ none
  unfolding HashMap.get
  empty_lookup q = refl

  min_of_list :
      (l : HashMap String Decimal)
      → Distinct l
      → IsBest NotAbove (λ q. HashMap.get q l) (min_by_value l)
  unfolding min_by_value
  min_of_list [] d = empty_lookup
  min_of_list (e ∷ es) d = (
    elim (min_from-in e es d.1) [
      | inl same ↦ rw same (here e es)
      | inr there ↦ later e es d (min_from e es) there
    ],
    λ q y g. elim (Bool-cases (str_eq e.0 q)) [
      | inl s ↦ ground (arith, min_from-start e es, first e es q y s g)
      | inr s ↦ min_from-bound e es q y (rest e es q y s g)
    ],
  )

  max_of_list :
      (l : HashMap String Decimal)
      → Distinct l
      → IsBest NotBelow (λ q. HashMap.get q l) (max_by_value l)
  unfolding max_by_value
  max_of_list [] d = empty_lookup
  max_of_list (e ∷ es) d = (
    elim (max_from-in e es d.1) [
      | inl same ↦ rw same (here e es)
      | inr there ↦ later e es d (max_from e es) there
    ],
    λ q y g. elim (Bool-cases (str_eq e.0 q)) [
      | inl s ↦ ground (arith, max_from-start e es, first e es q y s g)
      | inr s ↦ max_from-bound e es q y (rest e es q y s g)
    ],
  )

module _ ⦃D : Decimals⦄ ⦃M : DashMaps⦄ where
  lookup_of_iter :
      (m : DashMap String Decimal)
      → ◌≡◌ {A = String → Option Decimal} (λ q. HashMap.get q (M.iter m)) (λ q. M.get q m)
  lookup_of_iter m = fun_ext λ q. M.get-iter q m

  -- The minimum over the iteration is the least value of the map, the maximum the greatest.
  pub min_by_value-IsBest :
      (m : DashMap String Decimal) → IsBest NotAbove (λ q. M.get q m) (min_by_value (M.iter m))
  min_by_value-IsBest m =
      subst (λ l. IsBest NotAbove l (min_by_value (M.iter m))) (lookup_of_iter m)
        (min_of_list (M.iter m) (M.iter-Distinct m))

  pub max_by_value-IsBest :
      (m : DashMap String Decimal) → IsBest NotBelow (λ q. M.get q m) (max_by_value (M.iter m))
  max_by_value-IsBest m =
      subst (λ l. IsBest NotBelow l (max_by_value (M.iter m))) (lookup_of_iter m)
        (max_of_list (M.iter m) (M.iter-Distinct m))
