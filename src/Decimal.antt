-- ===== src/Decimal.antt =====
-- The interface of the `rust_decimal` crate, as far as the services use it. `rank` stands for the
-- numeric order on decimals (`PartialOrd`, `Eq`): the value in units of 10^-28, counted from the
-- least decimal, so two spellings of one number (0.5 and 0.50) have one rank. The crate panics where
-- a sum or a difference is out of range, which ends the call: `add` and `sub` are of calls that
-- return.
use wup_demo.Prelude.{ℕ, String, Bool, true, Option, some, ◌≡◌, ◌↔◌, ltb, ◌==◌}

pub record Decimals : Type 1 where
  pub Decimal : Type 0
  pub rank : Decimal → ℕ
  pub zero : Decimal
  pub is_zero : Decimal → Bool
  pub from_str : String → Option Decimal
  pub to_string : Decimal → String
  pub add : Decimal → Decimal → Decimal
  pub sub : Decimal → Decimal → Decimal
  pub div : Decimal → Decimal → Decimal
  pub from_ℕ : ℕ → Decimal
  -- `is_zero` holds exactly of the decimals that equal zero.
  pub is_zero_iff : (d : Decimal) → (is_zero d ≡ true) ↔ (rank d ≡ rank zero)
  -- What is printed is read back as the same number.
  pub from_str-to_string :
      (d : Decimal) → (e : Decimal) × (from_str (to_string d) ≡ some e) × (rank e ≡ rank d)

abbrev pub Decimal : ⦃D : Decimals⦄ → Type 0
Decimal ⦃D⦄ = D.Decimal

module _ ⦃D : Decimals⦄ where
  -- `==` and `<` on decimals.
  abbrev pub eqb : Decimal → Decimal → Bool
  eqb a b = D.rank a == D.rank b

  abbrev pub lt : Decimal → Decimal → Bool
  lt a b = ltb (D.rank a) (D.rank b)
