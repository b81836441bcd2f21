-- ===== src/Service/Messages.antt =====
-- What one message does to the books of the service and to its cached metadata.
use wup_demo.Prelude.{
  ℤ, String, string_eq, Bool, Option, none, some, ◌≡◌, refl, ◌∙◌, ap, Option-cases, inl, inr,
  if◌then◌else◌,
}
use wup_demo.Decimal.{Decimals}
use wup_demo.DashMap.{DashMaps}
use wup_demo.Schema.{NormalizedOrderbook}
use wup_demo.Orderbook
use wup_demo.Orderbook.{Orderbook}
use wup_demo.Store
use wup_demo.Store.{
  OrderbookStore, MarketMetadata, find_book, or_new, cache_market_metadata,
  get_cached_market_metadata,
}
use wup_demo.Store.Replay.{is_for, find_book-apply}
use wup_demo.Service.{
  RedisClient, prepare, fetch_and_cache_market_metadata, cache_found, process_message,
}

module _ ⦃D : Decimals⦄ ⦃M : DashMaps⦄ where
  books-cache_found :
      (platform m : String) (found : Option (String × Option String)) (store : OrderbookStore)
      → (cache_found platform m found store).books ≡ store.books
  unfolding cache_market_metadata
  books-cache_found platform m none store = refl
  books-cache_found platform m (some found) store = refl

  books-fetch :
      (redis : Option RedisClient) (platform m a : String) (store : OrderbookStore)
      → (fetch_and_cache_market_metadata redis platform m a store).books ≡ store.books
  unfolding fetch_and_cache_market_metadata
  books-fetch none platform m a store = refl
  books-fetch (some redis) platform m a store = books-cache_found platform m _ store

  books-prepare :
      (redis : Option RedisClient) (msg : NormalizedOrderbook) (store : OrderbookStore)
      → (prepare redis msg store).books ≡ store.books
  unfolding prepare
  books-prepare redis msg store =
      elim (Option-cases (get_cached_market_metadata msg.market_id store)) [
        | inl e ↦
            rw (e, prepare) (books-fetch redis msg.platform msg.market_id msg.clob_token_id store)
        | inr (metadata, e) ↦ rw (e, prepare)
      ]

  find_book-prepare :
      (redis : Option RedisClient) (msg : NormalizedOrderbook) (store : OrderbookStore)
      (m a : String)
      → find_book m a (prepare redis msg store) ≡ find_book m a store
  unfolding find_book
  find_book-prepare redis msg store m a =
      ap (λ books. Store.in_market a (M.get m books)) (books-prepare redis msg store)

  -- Whatever the lookup of metadata answers, and whether the change is published or not, a message
  -- changes the books as the store's `apply` does: the book of its market and asset, which it
  -- creates if it is missing, and no other.
  pub process_message-find_book :
      (publish_changes : Bool) (redis : Option RedisClient) (now : ℤ) (msg : NormalizedOrderbook)
      (store : OrderbookStore) (m a : String)
      → find_book m a (process_message publish_changes redis now msg store).0 ≡ (
          if is_for m a msg
          then some (Orderbook.apply msg (or_new msg (find_book m a store)))
          else find_book m a store)
  unfolding process_message
  process_message-find_book publish_changes redis now msg store m a =
      find_book-apply msg (prepare redis msg store) m a ∙ rw (find_book-prepare redis msg store m a)
