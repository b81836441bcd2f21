-- ===== src/PlatformSizes/Laws.antt =====
-- What each operation does to the size of each platform, and the sizes that a level may hold.
use wup_demo.Prelude.{
  String, string_eq, true, false, none, some, [], ◌∷◌, ◌≡◌, refl, if◌then◌else◌, arith, str_eq,
}
use wup_demo.Decimal.{Decimals, Decimal}
use wup_demo.HashMap
use wup_demo.HashMap.{HashMap, Distinct}
use wup_demo.HashMap.Laws.{
  get-insert, get-remove, insert-Distinct, remove-Distinct, get_of_is_empty,
}
use wup_demo.PlatformSizes.{PlatformSizes, new, set, get, is_empty, clear_platform}

module _ ⦃D : Decimals⦄ where
  -- No size in the table is zero.
  abbrev pub NonZero : HashMap String Decimal → Type 0
  NonZero [] = Unit
  NonZero ((k, d) ∷ m) = (D.is_zero d ≡ false) × NonZero m

  -- A level: one size for each platform, and none of them zero.
  pub record IsLevel (s : PlatformSizes) : Type 0 where
    pub distinct : Distinct s.sizes
    pub non_zero : NonZero s.sizes

  NonZero-insert :
      (k : String) (d : Decimal) (m : HashMap String Decimal)
      → D.is_zero d ≡ false
      → NonZero m
      → NonZero (HashMap.insert k d m)
  unfolding HashMap.insert
  NonZero-insert k d [] z h = (z, tt)
  NonZero-insert k d ((j, c) ∷ m) z h = ground (arith, NonZero-insert k d m z h.1)

  NonZero-remove :
      (k : String) (m : HashMap String Decimal) → NonZero m → NonZero (HashMap.remove k m)
  unfolding HashMap.remove
  NonZero-remove k [] h = tt
  NonZero-remove k ((j, c) ∷ m) h = ground (arith, NonZero-remove k m h.1)

  pub IsLevel-new : IsLevel new
  IsLevel-new = record { distinct = tt; non_zero = tt }

  pub set-IsLevel : (p : String) (d : Decimal) (s : PlatformSizes) → IsLevel s → IsLevel (set p d s)
  unfolding set
  set-IsLevel p d s h = record {
    distinct = ground (arith, insert-Distinct p d s.sizes, remove-Distinct p s.sizes);
    non_zero = ground (arith, NonZero-insert p d s.sizes, NonZero-remove p s.sizes);
  }

  pub clear_platform-IsLevel :
      (p : String) (s : PlatformSizes) → IsLevel s → IsLevel (clear_platform p s)
  unfolding clear_platform
  clear_platform-IsLevel p s h = record {
    distinct = remove-Distinct p s.sizes h.distinct;
    non_zero = NonZero-remove p s.sizes h.non_zero;
  }

  pub get-set :
      (p r : String) (d : Decimal) (s : PlatformSizes)
      → IsLevel s
      → get r (set p d s) ≡ (if str_eq p r then (if D.is_zero d then none else some d) else get r s)
  unfolding get set
  get-set p r d s h = ground (arith, get-insert p r d s.sizes, get-remove p r s.sizes h.distinct)

  pub get-clear_platform :
      (p r : String) (s : PlatformSizes)
      → IsLevel s
      → get r (clear_platform p s) ≡ (if str_eq p r then none else get r s)
  unfolding get clear_platform
  get-clear_platform p r s h = get-remove p r s.sizes h.distinct

  pub get_of_is_empty_level : (r : String) (s : PlatformSizes) → is_empty s ≡ true → get r s ≡ none
  unfolding get is_empty
  get_of_is_empty_level r s h = get_of_is_empty r s.sizes h

  pub get-new : (r : String) → get r new ≡ none
  unfolding get HashMap.get
  get-new r = refl
