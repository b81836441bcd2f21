-- ===== src/Normalizer/Polymarket/Groups.antt =====
-- One message per asset, with the changes of that asset in their order.
use wup_demo.Prelude.{
  String, str_eq, string_eq, eq_iff, Bool, Option, none, some, List, [], ◌∷◌, ◌++◌, map, ◌≡◌, refl,
  ◌∙◌, ap, sym, eq_refl, arith, append_assoc, keep, keep-hit, keep-miss, Bool-cases, inl, inr,
  if◌then◌else◌,
}
use wup_demo.HashMap
use wup_demo.HashMap.{HashMap, Distinct}
use wup_demo.HashMap.Laws.{get-insert, insert-Distinct}
use wup_demo.Schema.{NormalizedOrderbook, OrderbookMessageType, Side, OrderbookUpdate}
use wup_demo.Store.Replay.{is_for}
use wup_demo.Normalizer.Polymarket.{
  RawPriceChange, RawPriceChangeMessage, Grouped, group, or_default, or_empty, update_of, delta_of,
  transform_price_change,
}

unfoldable pub is_of : String → RawPriceChange → Bool
is_of a c = str_eq c.asset_id a

-- The changes already there, and then the new ones.
abbrev pub extended :
    List RawPriceChange → Option (List RawPriceChange) → Option (List RawPriceChange)
extended [] o = o
extended (c ∷ cs) o = some (or_default o ++ c ∷ cs)

abbrev pub best_of : RawPriceChange → String × String
best_of c = (c.best_bid, c.best_ask)

abbrev pub last_best : List RawPriceChange → Option (String × String) → Option (String × String)
last_best [] o = o
last_best (c ∷ cs) o = last_best cs (some (best_of c))

-- The last of the changes.
abbrev pub last_change : RawPriceChange → List RawPriceChange → RawPriceChange
last_change c [] = c
last_change c (d ∷ ds) = last_change d ds

last_best-last :
    (c : RawPriceChange) (cs : List RawPriceChange)
    → last_best (c ∷ cs) none ≡ some (best_of (last_change c cs))
last_best-last c [] = refl
last_best-last c (d ∷ ds) = last_best-last d ds

-- What is listed of the changes: each with its price and size, on the side of the bids if its text
-- says so, and otherwise on the other.
unfoldable pub listed : List RawPriceChange → List OrderbookUpdate
listed [] = []
listed (c ∷ cs) =
    let side = if str_eq c.side "BUY" then Side.buy else Side.sell in
    record { side = side; price = c.price; size = c.size } ∷ listed cs

update_of-listed : (cs : List RawPriceChange) → map update_of cs ≡ listed cs
unfolding listed update_of
update_of-listed [] = refl
update_of-listed (c ∷ cs) = ap (update_of c ∷◌) (update_of-listed cs)

extended-snoc :
    (c : RawPriceChange) (cs : List RawPriceChange) (o : Option (List RawPriceChange))
    → extended cs (some (or_default o ++ c ∷ [])) ≡ extended (c ∷ cs) o
extended-snoc c [] o = refl
extended-snoc c (d ∷ ds) o = ap some (append_assoc (or_default o) (c ∷ []) (d ∷ ds))

abbrev start : Grouped
start = record { grouped = []; best_prices = [] }

module _ (a : String) where
  grouped-group :
      (cs : List RawPriceChange) (g : Grouped)
      → HashMap.get a (group cs g).grouped ≡ extended (keep (is_of a) cs) (HashMap.get a g.grouped)
  unfolding group is_of
  grouped-group [] g = refl
  grouped-group (c ∷ cs) g =
      grouped-group cs _
      ∙ rw
          (get-insert c.asset_id a (or_default (HashMap.get c.asset_id g.grouped) ++ c ∷ [])
            g.grouped)
          (elim (Bool-cases (str_eq c.asset_id a)) [
            | inl e ↦
                rw (e, keep-hit (is_of a) c cs e)
                  (ap
                      (λ k.
                        extended (keep (is_of a) cs)
                          (some (or_default (HashMap.get k g.grouped) ++ c ∷ [])))
                      ((eq_iff c.asset_id a).0 e)
                    ∙ extended-snoc c (keep (is_of a) cs) (HashMap.get a g.grouped))
            | inr e ↦ rw (e, keep-miss (is_of a) c cs e)
          ])

  best_prices-group :
      (cs : List RawPriceChange) (g : Grouped)
      → HashMap.get a (group cs g).best_prices
        ≡ last_best (keep (is_of a) cs) (HashMap.get a g.best_prices)
  unfolding group is_of
  best_prices-group [] g = refl
  best_prices-group (c ∷ cs) g =
      best_prices-group cs _
      ∙ rw (get-insert c.asset_id a (best_of c) g.best_prices)
          (elim (Bool-cases (str_eq c.asset_id a)) [
            | inl e ↦ rw (e, keep-hit (is_of a) c cs e)
            | inr e ↦ rw (e, keep-miss (is_of a) c cs e)
          ])

group-Distinct :
    (cs : List RawPriceChange) (g : Grouped) → Distinct g.grouped → Distinct (group cs g).grouped
unfolding group
group-Distinct [] g d = d
group-Distinct (c ∷ cs) g d = group-Distinct cs _ (insert-Distinct c.asset_id _ g.grouped d)

module _ (msg : RawPriceChangeMessage) (now : String) (a : String) where
  is_for-delta_of :
      (k : String) (best : String × String) (cs : List RawPriceChange)
      → is_for msg.market a (delta_of now msg best (k, cs)) ≡ str_eq k a
  unfolding is_for delta_of
  is_for-delta_of k best cs = ground (arith, eq_refl msg.market)

  -- The messages for one asset that a map with distinct keys gives.
  abbrev entry : (String × String) → Option (List RawPriceChange) → List NormalizedOrderbook
  entry best none = []
  entry best (some cs) = delta_of now msg best (a, cs) ∷ []

  keep-entries :
      (best : String → String × String) (m : HashMap String (List RawPriceChange))
      → Distinct m
      → keep (is_for msg.market a) (map (λ p. delta_of now msg (best p.0) p) m)
        ≡ entry (best a) (HashMap.get a m)
  unfolding HashMap.get
  keep-entries best [] d = refl
  keep-entries best ((k, cs) ∷ m) d =
      let test = is_for-delta_of k (best k) cs in
      let rest = keep-entries best m d.1 in
      elim (Bool-cases (str_eq k a)) [
        | inl e ↦
            let same = (eq_iff k a).0 e in
            let unlisted = ap (λ j. HashMap.get j m) (sym same) ∙ d.0 in
            keep-hit (is_for msg.market a) (delta_of now msg (best k) (k, cs)) _ (test ∙ e)
            ∙ rw (e, rest, unlisted) (ap (λ j. delta_of now msg (best j) (j, cs) ∷ []) same)
        | inr e ↦
            keep-miss (is_for msg.market a) (delta_of now msg (best k) (k, cs)) _ (test ∙ e)
            ∙ rw (e, rest)
      ]

  -- What a price change says of one asset: nothing without a change of that asset, and else one
  -- message, written out.
  unfoldable pub delta_for : List RawPriceChange → List NormalizedOrderbook
  delta_for [] = []
  delta_for (c ∷ cs) =
      record {
        platform = "polymarket";
        clob_token_id = a;
        market_id = msg.market;
        message_type = OrderbookMessageType.delta;
        bids = none;
        asks = none;
        updates = some (listed (c ∷ cs));
        best_bid = some (last_change c cs).best_bid;
        best_ask = some (last_change c cs).best_ask;
        exchange_timestamp = msg.timestamp;
        received_at = msg.received_at;
        normalized_at = now;
      }
      ∷ []

  entry-extended :
      (cs : List RawPriceChange)
      → entry (or_empty (last_best cs none)) (extended cs none) ≡ delta_for cs
  unfolding delta_for delta_of
  entry-extended [] = refl
  entry-extended (c ∷ cs) = rw (last_best-last c cs, update_of-listed (c ∷ cs)) refl

  -- A price change becomes one message per asset that it names: for every asset, the messages that
  -- carry its identifier are none if no change names it, and otherwise exactly one, a delta of
  -- that market which lists all its changes in their order, each with its side, price and size, and
  -- the best prices of the last of them.
  pub keep-transform_price_change :
      keep (is_for msg.market a) (transform_price_change now msg)
      ≡ delta_for (keep (is_of a) msg.price_changes)
  unfolding transform_price_change HashMap.get
  keep-transform_price_change =
      let g = group msg.price_changes start in
      keep-entries (λ k. or_empty (HashMap.get k g.best_prices)) g.grouped
        (group-Distinct msg.price_changes start tt)
      ∙ rw (grouped-group a msg.price_changes start, best_prices-group a msg.price_changes start)
          (entry-extended (keep (is_of a) msg.price_changes))
