-- ===== src/Normalizer/Polymarket/Books.antt =====
-- What the orderbook service makes of the messages that the adapter gives for a price change.
use wup_demo.Prelude.{String, string_eq, some, List, ◌∷◌, ◌≡◌, ◌∙◌, ap, keep}
use wup_demo.Decimal.{Decimals}
use wup_demo.DashMap.{DashMaps}
use wup_demo.HashMap
use wup_demo.HashMap.Laws.{get-insert}
use wup_demo.Orderbook.{Orderbook}
use wup_demo.Orderbook.Header.{Header, header-apply}
use wup_demo.Store.{OrderbookStore, find_book}
use wup_demo.Store.Replay.{run, replayed, find_book-run, run_book}
use wup_demo.Normalizer.Polymarket.{
  RawPriceChange, RawPriceChangeMessage, platform_name, transform_price_change,
}
use wup_demo.Normalizer.Polymarket.Groups.{
  is_of, last_change, delta_for, keep-transform_price_change,
}

module _ ⦃D : Decimals⦄ ⦃M : DashMaps⦄ where
  -- A store that applies the messages of a price change: the book of an asset that the change does
  -- not name is as it was, and the book of one that it names has had one message with all the
  -- changes of that asset.
  pub find_book-price_change :
      (msg : RawPriceChangeMessage) (now a : String) (store : OrderbookStore)
      → find_book msg.market a (run (transform_price_change now msg) store)
        ≡ replayed
            (delta_for msg now a (keep (is_of a) msg.price_changes))
            (find_book msg.market a store)
  find_book-price_change msg now a store =
      find_book-run (transform_price_change now msg) store msg.market a
      ∙ ap (λ ms. replayed ms (find_book msg.market a store))
          (keep-transform_price_change msg now a)

  -- After a price change that names an asset, the store has a book of that asset, and it reports
  -- the best bid of the last change of the asset, whatever text it is: also the empty text, which
  -- stands for a best bid that the exchange did not send, and which replaces the one reported before.
  pub exchange_best-price_change :
      (msg : RawPriceChangeMessage) (now a : String) (store : OrderbookStore) (c : RawPriceChange)
      (cs : List RawPriceChange)
      → keep (is_of a) msg.price_changes ≡ c ∷ cs
      → (ob : Orderbook) × (find_book msg.market a (run (transform_price_change now msg) store)
          ≡ some ob)
        × (HashMap.get platform_name ob.exchange_best_bid ≡ some (last_change c cs).best_bid)
  unfolding delta_for run_book
  exchange_best-price_change msg now a store c cs named = (
    _,
    find_book-price_change msg now a store
        ∙ ap (λ ds. replayed (delta_for msg now a ds) (find_book msg.market a store)) named,
    ap (λ (h : Header). HashMap.get platform_name h.exchange_best_bid) (header-apply _ _)
        ∙ get-insert platform_name platform_name (last_change c cs).best_bid _,
  )
