-- ===== src/Aggregator/Names.antt =====
-- The identifiers of the workers. The printing of numbers (`Display` of `u64`) is a parameter: it
-- gives different texts for different numbers.
use Prim.Native.String.{◌++◌}
use text.Mathlib.TextLemmas.{append_cancel_left}
use wup_demo.Prelude.{ℕ, String, ◌≡◌}

pub record Numbers : Type 0 where
  pub to_string : ℕ → String
  pub to_string_injective : (m n : ℕ) → to_string m ≡ to_string n → m ≡ n

module _ ⦃N : Numbers⦄ where
  -- `format!("poly-worker-{}", n)`
  unfoldable pub worker_id : ℕ → String
  worker_id n = "poly-worker-" ++ N.to_string n

  pub worker_id_injective : (m n : ℕ) → worker_id m ≡ worker_id n → m ≡ n
  unfolding worker_id
  worker_id_injective m n h = N.to_string_injective m n (append_cancel_left "poly-worker-" _ _ h)
