-- ===== src/DashMap.antt =====
-- The interface of the `dashmap` crate, as far as the services use it: a map from keys to values,
-- and the order in which it is iterated, which the crate leaves open. A `DashSet` is a map to
-- `Unit`. Each call is atomic, so a run of the services is a sequence of calls.
pub mod Local
use wup_demo.Prelude.{Eq, Option, none, some, List, ◌≡◌, if◌then◌else◌}
use wup_demo.HashMap
use wup_demo.HashMap.{HashMap, Distinct}

pub record DashMaps : Type 1 where
  pub DashMap : Type 0 → Type 0 → Type 0
  pub empty : {K V : Type 0} → DashMap K V
  pub get : {K V : Type 0} ⦃e : Eq K⦄ → K → DashMap K V → Option V
  pub insert : {K V : Type 0} ⦃e : Eq K⦄ → K → V → DashMap K V → DashMap K V
  pub remove : {K V : Type 0} ⦃e : Eq K⦄ → K → DashMap K V → DashMap K V
  -- The entries in the order of iteration.
  pub iter : {K V : Type 0} ⦃e : Eq K⦄ → DashMap K V → List (K × V)
  pub get-empty : {K V : Type 0} ⦃e : Eq K⦄ (k : K) → get k (empty {K = K} {V = V}) ≡ none
  pub get-insert :
      {K V : Type 0} ⦃e : Eq K⦄ (k j : K) (v : V) (m : DashMap K V)
      → get j (insert k v m) ≡ (if e.beq k j then some v else get j m)
  pub get-remove :
      {K V : Type 0} ⦃e : Eq K⦄ (k j : K) (m : DashMap K V)
      → get j (remove k m) ≡ (if e.beq k j then none else get j m)
  -- Iteration meets every entry once.
  pub get-iter :
      {K V : Type 0} ⦃e : Eq K⦄ (k : K) (m : DashMap K V) → HashMap.get k (iter m) ≡ get k m
  pub iter-Distinct : {K V : Type 0} ⦃e : Eq K⦄ (m : DashMap K V) → Distinct (iter m)

abbrev pub DashMap : ⦃M : DashMaps⦄ → Type 0 → Type 0 → Type 0
DashMap ⦃M⦄ = M.DashMap

abbrev pub DashSet : ⦃M : DashMaps⦄ → Type 0 → Type 0
DashSet K = DashMap K (Unit {0})
