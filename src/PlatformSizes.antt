-- ===== src/PlatformSizes.antt =====
-- `PlatformSizes` of crates/orderbook_service/src/orderbook.rs: the sizes of one price level, one
-- for each platform.
pub mod Laws
use mathlib.Core.List.{foldl}
use wup_demo.Prelude.{String, string_eq, Bool, Option, List, [], if◌then◌else◌}
use wup_demo.Decimal.{Decimals, Decimal}
use wup_demo.HashMap
use wup_demo.HashMap.{HashMap}

pub record PlatformSizes ⦃D : Decimals⦄ : Type 0 where
  pub sizes : HashMap String Decimal

module _ ⦃D : Decimals⦄ where
  abbrev pub new : PlatformSizes
  new = record { sizes = [] }

  unfoldable pub set : String → Decimal → PlatformSizes → PlatformSizes
  set platform size s =
      if D.is_zero size
      then record { sizes = HashMap.remove platform s.sizes }
      else record { sizes = HashMap.insert platform size s.sizes }

  unfoldable pub get : String → PlatformSizes → Option Decimal
  get platform s = HashMap.get platform s.sizes

  -- `values().copied().sum()`
  unfoldable pub total_size : PlatformSizes → Decimal
  total_size s = foldl D.add D.zero (HashMap.values s.sizes)

  unfoldable pub is_empty : PlatformSizes → Bool
  is_empty s = HashMap.is_empty s.sizes

  unfoldable pub platforms : PlatformSizes → List String
  platforms s = HashMap.keys s.sizes

  unfoldable pub clear_platform : String → PlatformSizes → PlatformSizes
  clear_platform platform s = record { sizes = HashMap.remove platform s.sizes }
