-- ===== src/Store/Health.antt =====
-- What holds of every book of a store that has only applied messages.
use wup_demo.Prelude.{
  String, true, Option, none, some, List, [], ◌∷◌, ◌≡◌, ◌∙◌, arith, ap, subst, inl, inr, eq_iff,
  Bool-cases, string_eq,
}
use wup_demo.Decimal.{Decimals}
use wup_demo.DashMap.{DashMaps}
use wup_demo.Schema.{NormalizedOrderbook}
use wup_demo.Orderbook
use wup_demo.Orderbook.{Orderbook, u64_mod}
use wup_demo.Orderbook.Best.{IsSettled, apply-IsSettled, new-IsSettled}
use wup_demo.Orderbook.Header.{Header, header-apply}
use wup_demo.Store.{OrderbookStore, new, apply, find_book, or_new}
use wup_demo.Store.Replay.{run, is_for, find_book-apply}

module _ ⦃D : Decimals⦄ ⦃M : DashMaps⦄ where
  -- The book of market `m` and asset `a`, in good order and under its own keys.
  pub record IsBookOf (m a : String) (ob : Orderbook) : Type 0 where
    pub settled : IsSettled ob
    pub market_id : ob.market_id ≡ m
    pub clob_token_id : ob.clob_token_id ≡ a

  abbrev pub AtBook : String → String → Option Orderbook → Type 0
  AtBook m a none = Unit
  AtBook m a (some ob) = IsBookOf m a ob

  ids-apply :
      (msg : NormalizedOrderbook) (ob : Orderbook)
      → ((Orderbook.apply msg ob).market_id ≡ ob.market_id)
        × ((Orderbook.apply msg ob).clob_token_id ≡ ob.clob_token_id)
  ids-apply msg ob = (
    ap (λ (h : Header). h.market_id) (header-apply msg ob),
    ap (λ (h : Header). h.clob_token_id) (header-apply msg ob),
  )

  pub find_book-new : (m a : String) → find_book m a new ≡ none
  unfolding find_book
  find_book-new m a = rw (M.get-empty m)

  apply-AtBook :
      (msg : NormalizedOrderbook) (m a : String) (o : Option Orderbook)
      → is_for m a msg ≡ true
      → AtBook m a o
      → IsBookOf m a (Orderbook.apply msg (or_new msg o))
  unfolding is_for
  apply-AtBook msg m a none e h =
      let ob = Orderbook.new msg.clob_token_id msg.market_id in
      let ids = ids-apply msg ob in
      record {
        settled = apply-IsSettled msg ob (new-IsSettled msg.clob_token_id msg.market_id);
        market_id = ids.0 ∙ ground (arith, eq_iff msg.market_id m);
        clob_token_id = ids.1 ∙ ground (arith, eq_iff msg.clob_token_id a);
      }
  apply-AtBook msg m a (some ob) e h =
      let ids = ids-apply msg ob in
      record {
        settled = apply-IsSettled msg ob h.settled;
        market_id = ids.0 ∙ h.market_id;
        clob_token_id = ids.1 ∙ h.clob_token_id;
      }

  run-AtBook :
      (msgs : List NormalizedOrderbook) (store : OrderbookStore) (m a : String)
      → AtBook m a (find_book m a store)
      → AtBook m a (find_book m a (run msgs store))
  unfolding run
  run-AtBook [] store m a h = h
  run-AtBook (msg ∷ msgs) store m a h = run-AtBook msgs (apply msg store) m a (
      rw (find_book-apply msg store m a) (elim (Bool-cases (is_for m a msg)) [
        | inl e ↦ rw e (apply-AtBook msg m a (find_book m a store) e h)
        | inr e ↦ rw e h
      ]))

  pub stored-AtBook :
      (msgs : List NormalizedOrderbook) (m a : String) → AtBook m a (find_book m a (run msgs new))
  stored-AtBook msgs m a = run-AtBook msgs new m a (rw (find_book-new m a) tt)

  -- Whatever messages a new store has applied, every book in it has its sides in order, no size
  -- zero, the right best bid and ask, and the market and asset under which it is found.
  pub stored-IsBookOf :
      (msgs : List NormalizedOrderbook) (m a : String) (ob : Orderbook)
      → find_book m a (run msgs new) ≡ some ob
      → IsBookOf m a ob
  stored-IsBookOf msgs m a ob e = subst (AtBook m a) e (stored-AtBook msgs m a)
