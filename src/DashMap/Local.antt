-- ===== src/DashMap/Local.antt =====
-- A concrete map that meets the interface: an association list in which the first entry of a key
-- counts.
use wup_demo.Prelude.{Eq, none, [], ◌∷◌, ◌≡◌, refl, if◌then◌else◌, arith}
use wup_demo.HashMap
use wup_demo.HashMap.{HashMap, Distinct}
use wup_demo.HashMap.Laws.{get-insert, get-remove, remove-Distinct}
use wup_demo.DashMap.{DashMaps}

module _ {K V : Type 0} ⦃e : Eq K⦄ where
  -- The entries that count.
  unfoldable pub firsts : HashMap K V → HashMap K V
  unfolding HashMap.remove
  firsts [] = []
  firsts ((k, v) ∷ m) = (k, v) ∷ HashMap.remove k (firsts m)

  pub firsts-Distinct : (m : HashMap K V) → Distinct (firsts m)
  unfolding firsts
  firsts-Distinct [] = tt
  firsts-Distinct ((k, v) ∷ m) =
      let d = firsts-Distinct m in
      (ground (arith, get-remove k k (firsts m) d, e.beq_iff k k), remove-Distinct k (firsts m) d)

  pub get-firsts : (k : K) (m : HashMap K V) → HashMap.get k (firsts m) ≡ HashMap.get k m
  unfolding firsts HashMap.get
  get-firsts k [] = refl
  get-firsts k ((j, v) ∷ m) =
      ground (arith, get-firsts k m, get-remove j k (firsts m) (firsts-Distinct m))

  unfoldable pub remove_first : K → HashMap K V → HashMap K V
  unfolding firsts
  remove_first k m = HashMap.remove k (firsts m)

  pub get-remove_first :
      (k j : K) (m : HashMap K V)
      → HashMap.get j (remove_first k m) ≡ (if e.beq k j then none else HashMap.get j m)
  unfolding remove_first
  get-remove_first k j m =
      ground (arith, get-remove k j (firsts m) (firsts-Distinct m), get-firsts j m)

  pub get-nil : (k : K) → HashMap.get {V = V} k [] ≡ none
  unfolding HashMap.get
  get-nil k = refl

instance abbrev pub local_maps : DashMaps
local_maps = record {
  DashMap = HashMap;
  empty = [];
  get = HashMap.get;
  insert = HashMap.insert;
  remove = remove_first;
  iter = firsts;
  get-empty = get-nil;
  get-insert = get-insert;
  get-remove = get-remove_first;
  get-iter = get-firsts;
  iter-Distinct = firsts-Distinct;
}
