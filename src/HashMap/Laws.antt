-- ===== src/HashMap/Laws.antt =====
-- The laws of the map operations, in the form that needs no side condition where there is one.
use wup_demo.Prelude.{Eq, true, none, some, [], ◌∷◌, ◌≡◌, refl, if◌then◌else◌, arith}
use wup_demo.HashMap.{HashMap, get, insert, remove, contains_key, Distinct, is_empty}

module _ {K V : Type 0} ⦃e : Eq K⦄ where
  pub get-insert :
      (k j : K) (v : V) (m : HashMap K V)
      → get j (insert k v m) ≡ (if e.beq k j then some v else get j m)
  unfolding get insert
  get-insert k j v [] = refl
  get-insert k j v ((i, w) ∷ m) =
      ground (arith, e.beq_iff k j, e.beq_iff i k, e.beq_iff i j, get-insert k j v m)

  pub get-remove :
      (k j : K) (m : HashMap K V)
      → Distinct m
      → get j (remove k m) ≡ (if e.beq k j then none else get j m)
  unfolding get remove
  get-remove k j [] d = ground arith
  get-remove k j ((i, w) ∷ m) d =
      ground (arith, e.beq_iff k j, e.beq_iff i k, e.beq_iff i j, get-remove k j m d.1)

  pub contains_key-get :
      (k : K) (m : HashMap K V) → contains_key k m ≡ true → (v : V) × (get k m ≡ some v)
  unfolding contains_key
  contains_key-get k m h = ground arith

  pub insert-Distinct : (k : K) (v : V) (m : HashMap K V) → Distinct m → Distinct (insert k v m)
  unfolding get insert
  insert-Distinct k v [] d = (refl, tt)
  insert-Distinct k v ((i, w) ∷ m) d =
      ground (arith, e.beq_iff i k, e.beq_iff k i, get-insert k i v m, insert-Distinct k v m d.1)

  pub remove-Distinct : (k : K) (m : HashMap K V) → Distinct m → Distinct (remove k m)
  unfolding get remove
  remove-Distinct k [] d = tt
  remove-Distinct k ((i, w) ∷ m) d =
      ground (arith, e.beq_iff i k, e.beq_iff k i, get-remove k i m d.1, remove-Distinct k m d.1)

  pub get_of_is_empty : (k : K) (m : HashMap K V) → is_empty m ≡ true → get k m ≡ none
  unfolding get
  get_of_is_empty k [] h = refl
  get_of_is_empty k ((j, v) ∷ m) h = ground arith
