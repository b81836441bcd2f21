-- ===== src/Executor/Conversions.antt =====
-- Tick sizes and open orders of Polymarket, from one form to the other.
use wup_demo.Prelude.{
  String, str_eq, true, some, ◌≡◌, ◌↔◌, refl, ◌∙◌, sym, ap, arith, eq_iff, Bool-cases, inl, inr,
}
use wup_demo.Decimal.{Decimals, Decimal}
use wup_demo.Executor.Polymarket.{TickSize, parse, as_str, SdkOrder, open_order, from_open_order}

parsed : (s : String) (t : TickSize) → parse s ≡ some t → s ≡ as_str t
unfolding parse as_str
parsed s t h = elim (Bool-cases (str_eq s "0.1")) [
  | inl a ↦ at "0.1" TickSize.tenth a (ground arith) refl
  | inr a ↦ elim (Bool-cases (str_eq s "0.01")) [
    | inl b ↦ at "0.01" TickSize.hundredth b (ground arith) refl
    | inr b ↦ elim (Bool-cases (str_eq s "0.001")) [
      | inl c ↦ at "0.001" TickSize.thousandth c (ground arith) refl
      | inr c ↦ elim (Bool-cases (str_eq s "0.0001")) [
        | inl d ↦ at "0.0001" TickSize.ten_thousandth d (ground arith) refl
        | inr d ↦ absurd (ground arith)
      ]
    ]
  ]
]
  where
    at :
        (text : String) (u : TickSize)
        → str_eq s text ≡ true
        → u ≡ t
        → as_str u ≡ text
        → s ≡ as_str t
    at text u e same spelled = (eq_iff s text).0 e ∙ sym spelled ∙ ap as_str same

printed : (t : TickSize) → parse (as_str t) ≡ some t
unfolding parse as_str
printed TickSize.tenth = refl
printed TickSize.hundredth = refl
printed TickSize.thousandth = refl
printed TickSize.ten_thousandth = refl

-- A text is read as a tick size exactly if it is the text that the tick size is printed as.
pub parse-as_str : (s : String) (t : TickSize) → (parse s ≡ some t) ↔ (s ≡ as_str t)
parse-as_str s t = (parsed s t, λ e. ap parse e ∙ printed t)

module _ ⦃D : Decimals⦄ where
  -- The response for an open order gives as its remaining size the size that the exchange has
  -- matched, and as its filled size the original size less that.
  pub remaining-open_order :
      (o : SdkOrder)
      → (matched : Decimal) × ((original : Decimal) × ((D.rank matched ≡ D.rank o.size_matched)
            × ((D.rank original ≡ D.rank o.original_size)
                × (((from_open_order (open_order o)).remaining_size ≡ some matched)
                    × ((from_open_order (open_order o)).filled_size
                        ≡ some (D.sub original matched))))))
  unfolding from_open_order open_order
  remaining-open_order o =
      let (m, em, rm) = D.from_str-to_string o.size_matched in
      let (s, es, rs) = D.from_str-to_string o.original_size in
      (m, (s, (rm, (rs, (em, rw (em, es))))))
