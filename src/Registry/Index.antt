-- ===== src/Registry/Index.antt =====
-- What the operations on one index do to the membership of each client under each subject.
use wup_demo.Prelude.{
  Eq, String, string_eq, str_eq, eq_iff, Bool, true, false, ◌&&◌, ◌||◌, not, ap, Option, none, some,
  [], ◌∷◌, ◌≡◌, refl, ◌∙◌, arith, Bool-cases, Option-cases, inl, inr,
}
use wup_demo.DashMap.{DashMaps, DashMap, DashSet}
use wup_demo.HashMap
use wup_demo.HashMap.{HashMap, Distinct}
use wup_demo.HashMap.Laws.{get-insert, insert-Distinct}
use wup_demo.Registry.{with_client, drop_from, drop_from_patterns, drop_from_all}

module _ ⦃M : DashMaps⦄ {K : Type 0} ⦃e : Eq K⦄ where
  abbrev pub has : K → DashSet K → Bool
  has k set = elim (M.get k set) [ none ↦ false | some u ↦ true ]

  abbrev pub has_in : K → Option (DashSet K) → Bool
  has_in k none = false
  has_in k (some set) = has k set

  pub has-insert :
      (k j : K) (set : DashSet K) → has j (M.insert k tt set) ≡ (e.beq k j || has j set)
  has-insert k j set =
      rw (M.get-insert k j tt set, has)
        (elim (Bool-cases (e.beq k j)) [ inl h ↦ rw h | inr h ↦ rw h ])

  pub has-remove :
      (k j : K) (set : DashSet K) → has j (M.remove k set) ≡ (not (e.beq k j) && has j set)
  has-remove k j set =
      rw (M.get-remove k j set, has) (elim (Bool-cases (e.beq k j)) [ inl h ↦ rw h | inr h ↦ rw h ])

  pub has-empty : (j : K) → has j M.empty ≡ false
  has-empty j = rw (M.get-empty j, has)

  pub has-with_client :
      (k j : K) (o : Option (DashSet K)) → has j (with_client k o) ≡ (e.beq k j || has_in j o)
  has-with_client k j none = has-insert k j M.empty ∙ rw (has-empty j)
  has-with_client k j (some set) = has-insert k j set

  -- An index after a client was added under a subject, and after it was dropped.
  pub add-index :
      (k j : K) (s p : String) (m : DashMap String (DashSet K))
      → has_in j (M.get p (M.insert s (with_client k (M.get s m)) m))
        ≡ ((str_eq s p && e.beq k j) || has_in j (M.get p m))
  add-index k j s p m = rw (M.get-insert s p _ m) (elim (Bool-cases (str_eq s p)) [
    | inl h ↦ rw h (
        has-with_client k j (M.get s m)
        ∙ ap (λ q. e.beq k j || has_in j (M.get q m)) ((eq_iff s p).0 h))
    | inr h ↦ rw h
  ])

  pub add-patterns :
      (k j : K) (s p : String) (m : HashMap String (DashSet K))
      → has_in j (HashMap.get p (HashMap.insert s (with_client k (HashMap.get s m)) m))
        ≡ ((str_eq s p && e.beq k j) || has_in j (HashMap.get p m))
  add-patterns k j s p m = rw (get-insert s p _ m) (elim (Bool-cases (str_eq s p)) [
    | inl h ↦ rw h (
        has-with_client k j (HashMap.get s m)
        ∙ ap (λ q. e.beq k j || has_in j (HashMap.get q m)) ((eq_iff s p).0 h))
    | inr h ↦ rw h
  ])

  pub drop-index :
      (k j : K) (s p : String) (m : DashMap String (DashSet K))
      → has_in j (M.get p (drop_from k s m))
        ≡ (not (str_eq s p && e.beq k j) && has_in j (M.get p m))
  drop-index k j s p m = elim (Option-cases (M.get s m)) [
    | inl o ↦ rw (o, drop_from) (ground (arith, eq_iff s p))
    | inr (set, o) ↦
        rw (o, drop_from)
          (rw (M.get-insert s p (M.remove k set) m)
            (ground (arith, eq_iff s p, has-remove k j set)))
  ]

  pub drop-patterns :
      (k j : K) (s p : String) (m : HashMap String (DashSet K))
      → has_in j (HashMap.get p (drop_from_patterns k s m))
        ≡ (not (str_eq s p && e.beq k j) && has_in j (HashMap.get p m))
  drop-patterns k j s p m = elim (Option-cases (HashMap.get s m)) [
    | inl o ↦ rw (o, drop_from_patterns) (ground (arith, eq_iff s p))
    | inr (set, o) ↦
        rw (o, drop_from_patterns)
          (rw (get-insert s p (M.remove k set) m) (ground (arith, eq_iff s p, has-remove k j set)))
  ]

  pub drop-all :
      (k j : K) (p : String) (m : HashMap String (DashSet K))
      → has_in j (HashMap.get p (drop_from_all k m))
        ≡ (not (e.beq k j) && has_in j (HashMap.get p m))
  unfolding HashMap.get
  drop-all k j p [] = ground arith
  drop-all k j p ((q, set) ∷ m) = elim (Bool-cases (str_eq q p)) [
    | inl h ↦ rw h (has-remove k j set)
    | inr h ↦ rw h (drop-all k j p m)
  ]

  pub drop_from_patterns-Distinct :
      (k : K) (s : String) (m : HashMap String (DashSet K))
      → Distinct m
      → Distinct (drop_from_patterns k s m)
  drop_from_patterns-Distinct k s m d = elim (Option-cases (HashMap.get s m)) [
    | inl o ↦ rw (o, drop_from_patterns) d
    | inr (set, o) ↦ rw (o, drop_from_patterns) (insert-Distinct s (M.remove k set) m d)
  ]

  pub get-drop_all :
      (k : K) (p : String) (m : HashMap String (DashSet K))
      → HashMap.get p m ≡ none
      → HashMap.get p (drop_from_all k m) ≡ none
  unfolding HashMap.get
  get-drop_all k p [] h = refl
  get-drop_all k p ((q, set) ∷ m) h = ground (arith, get-drop_all k p m)

  pub drop_from_all-Distinct :
      (k : K) (m : HashMap String (DashSet K)) → Distinct m → Distinct (drop_from_all k m)
  drop_from_all-Distinct k [] d = tt
  drop_from_all-Distinct k ((q, set) ∷ m) d =
      (get-drop_all k q m d.0, drop_from_all-Distinct k m d.1)
