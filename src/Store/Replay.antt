-- ===== src/Store/Replay.antt =====
-- The store as a function of the messages it has applied.
use wup_demo.Prelude.{
  String, string_eq, str_eq, Bool, ◌&&◌, Option, none, some, List, [], ◌∷◌, ◌≡◌, refl, ◌∙◌, keep,
  keep-hit, keep-miss, ap, if◌then◌else◌, eq_iff, Bool-cases, inl, inr,
}
use wup_demo.Decimal.{Decimals}
use wup_demo.DashMap.{DashMaps, DashMap}
use wup_demo.Schema.{NormalizedOrderbook, OrderbookMessageType}
use wup_demo.Orderbook
use wup_demo.Orderbook.{Orderbook, u64_mod}
use wup_demo.Store.{OrderbookStore, apply, find_book, or_new, or_default, in_market, count_message}

-- Is the message for this market and asset?
unfoldable pub is_for : String → String → NormalizedOrderbook → Bool
is_for market_id asset_id msg = str_eq msg.market_id market_id && str_eq msg.clob_token_id asset_id

module _ ⦃D : Decimals⦄ ⦃M : DashMaps⦄ where
  -- A service that applies the messages in turn.
  unfoldable pub run : List NormalizedOrderbook → OrderbookStore → OrderbookStore
  run [] store = store
  run (msg ∷ msgs) store = run msgs (apply msg store)

  unfoldable pub run_book : List NormalizedOrderbook → Orderbook → Orderbook
  run_book [] ob = ob
  run_book (msg ∷ msgs) ob = run_book msgs (Orderbook.apply msg ob)

  -- What the messages for one asset make of its book, which the first of them creates.
  abbrev pub replayed : List NormalizedOrderbook → Option Orderbook → Option Orderbook
  replayed [] o = o
  replayed (msg ∷ msgs) o = some (run_book (msg ∷ msgs) (or_new msg o))

  replayed-some :
      (msgs : List NormalizedOrderbook) (ob : Orderbook)
      → replayed msgs (some ob) ≡ some (run_book msgs ob)
  unfolding run_book
  replayed-some [] ob = refl
  replayed-some (msg ∷ msgs) ob = refl

  books-count_message :
      (t : OrderbookMessageType) (store : OrderbookStore)
      → (count_message t store).books ≡ store.books
  books-count_message OrderbookMessageType.snapshot store = refl
  books-count_message OrderbookMessageType.delta store = refl

  in_default_market :
      (a : String) (o : Option (DashMap String Orderbook)) → M.get a (or_default o) ≡ in_market a o
  in_default_market a none = M.get-empty a
  in_default_market a (some books) = refl

  found :
      (a market m : String) (store : OrderbookStore)
      → market ≡ m
      → M.get a (or_default (M.get market store.books)) ≡ find_book m a store
  unfolding find_book
  found a market m store e = in_default_market a _ ∙ ap (λ k. in_market a (M.get k store.books)) e

  -- A message changes the book of its market and asset, and no other.
  pub find_book-apply :
      (msg : NormalizedOrderbook) (store : OrderbookStore) (m a : String)
      → find_book m a (apply msg store) ≡ (
          if is_for m a msg
          then some (Orderbook.apply msg (or_new msg (find_book m a store)))
          else find_book m a store)
  unfolding find_book apply is_for
  find_book-apply msg store m a =
      let o = M.get msg.market_id store.books in
      let changed = Orderbook.apply msg (or_new msg (M.get msg.clob_token_id (or_default o))) in
      rw (books-count_message msg.message_type _, M.get-insert msg.market_id m _ store.books)
        (elim (Bool-cases (str_eq msg.market_id m)) [
          | inl e ↦
              rw (e, M.get-insert msg.clob_token_id a changed (or_default o))
                (elim (Bool-cases (str_eq msg.clob_token_id a)) [
                  | inl f ↦ rw f (
                      ap (λ b. some (Orderbook.apply msg (or_new msg b)))
                        (found msg.clob_token_id msg.market_id m store ((eq_iff _ _).0 e)
                          ∙ ap (λ k. find_book m k store) ((eq_iff _ _).0 f)))
                  | inr f ↦ rw f (found a msg.market_id m store ((eq_iff _ _).0 e))
                ])
          | inr e ↦ rw e
        ])

  -- After any sequence of messages, the book of a market and asset is what the messages for that
  -- market and asset, in their order, make of the book before; the first of them creates it where
  -- it was missing.
  pub find_book-run :
      (msgs : List NormalizedOrderbook) (store : OrderbookStore) (m a : String)
      → find_book m a (run msgs store) ≡ replayed (keep (is_for m a) msgs) (find_book m a store)
  unfolding run run_book
  find_book-run [] store m a = refl
  find_book-run (msg ∷ msgs) store m a =
      find_book-run msgs (apply msg store) m a
      ∙ rw (find_book-apply msg store m a) (elim (Bool-cases (is_for m a msg)) [
        | inl e ↦
            rw (e, keep-hit (is_for m a) msg msgs e) (replayed-some (keep (is_for m a) msgs) _)
        | inr e ↦ rw (e, keep-miss (is_for m a) msg msgs e)
      ])
