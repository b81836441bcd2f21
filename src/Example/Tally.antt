-- ===== src/Example/Tally.antt =====
-- Decimals in tally marks, to run the model with: "|||" is three.
use Prim.Native.Char.{code}
use wup_demo.Prelude.{
  ℕ, zero, suc, ◌+◌, ◌-◌, ◌/◌, String, Option, none, some, ◌≡◌, refl, ◌==◌, ==_iff, if◌then◌else◌,
}
use wup_demo.Decimal.{Decimals}

abbrev succ : Option ℕ → Option ℕ
succ none = none
succ (some n) = some (suc n)

unfoldable pub read : String → Option ℕ
read String.[] = some 0
read (String.◌∷◌ c s) = let rest = succ (read s) in if code c == b'|' then rest else none

unfoldable pub print : ℕ → String
print zero = ""
print (suc n) = String.◌∷◌ "|" (print n)

pub read-print : (n : ℕ) → read (print n) ≡ some n
unfolding read print
read-print zero = refl
read-print (suc n) = rw (read-print n)

instance abbrev pub tally : Decimals
tally = record {
  Decimal = ℕ;
  rank = λ n. n;
  zero = 0;
  is_zero = λ n. n == 0;
  from_str = read;
  to_string = print;
  add = ◌+◌;
  sub = ◌-◌;
  div = ◌/◌;
  from_ℕ = λ n. n;
  is_zero_iff = λ n. ==_iff n 0;
  from_str-to_string = λ n. (n, read-print n, refl);
}
