-- ===== src/Example/Services.antt =====
-- The theorems on the service, at a store with a book of two platforms and a message that withdraws
-- a bid.
use wup_demo.Prelude.{◌≡◌, refl, some, none, [], ◌∷◌, pos, true, if◌then◌else◌, arith, Option}
use wup_demo.Example.Tally.{tally, read}
use wup_demo.Example.Messages.{change_of}
use wup_demo.Example.Stores.{history, stored}
use wup_demo.DashMap.Local.{local_maps}
use wup_demo.HashMap
use wup_demo.Schema.{OrderSide}
use wup_demo.Orderbook
use wup_demo.Orderbook.View.{view}
use wup_demo.Store.{OrderbookStore, new, find_book, or_new}
use wup_demo.Store.Replay.{run, run_book, is_for}
use wup_demo.Store.Health.{AtBook, stored-AtBook}
use wup_demo.Service.{RedisClient, process_message, published_change, publish_change}
use wup_demo.Service.Messages.{process_message-find_book}
use wup_demo.Service.Views.{entry_of, shown, published_change-view}
use wup_demo.Service.Published.{received, IsSoundBook, publish_change-BidsFrom}
use wup_demo.Executor.BboCache.{CachedBbo, handle_changes}
use wup_demo.Executor.Cached.{StillBids}

abbrev store : OrderbookStore
store = run history new

abbrev redis : RedisClient
redis = record {
  find_market_by_token_id = λ platform id. none;
  find_market_by_id = λ platform id. some ("slug", some "question");
}

process_message-find_book_example :
    find_book "market" "token"
      (process_message true (some redis) (pos 5) (change_of "kalshi") store).0
    ≡ (if is_for "market" "token" (change_of "kalshi")
        then some (
            Orderbook.apply
              (change_of "kalshi")
              (or_new (change_of "kalshi") (find_book "market" "token" store)))
        else find_book "market" "token" store)
process_message-find_book_example =
    process_message-find_book true (some redis) (pos 5) (change_of "kalshi") store "market" "token"

-- The bid at three, which the last message has withdrawn.
abbrev bbo : CachedBbo
bbo = record { best_bids = ("kalshi", 3) ∷ []; best_asks = [] }

sound_of : (o : Option Orderbook.Orderbook) → AtBook "market" "token" o → IsSoundBook o
sound_of none h = tt
sound_of (some ob) h = h.settled.sound

store-IsSoundBook : IsSoundBook (find_book "market" "token" store)
store-IsSoundBook = sound_of _ (stored-AtBook history "market" "token")

publish_change-BidsFrom_example :
    StillBids "kalshi" 3
      (handle_changes (received (publish_change (pos 6) (change_of "kalshi") store).1) bbo)
unfolding HashMap.get
publish_change-BidsFrom_example =
    publish_change-BidsFrom (pos 6) (change_of "kalshi") store bbo "kalshi" 3 store-IsSoundBook
      (3, (refl, omega arith))

published_change-view_example :
    entry_of "polymarket"
      (published_change (change_of "kalshi") store ("|||", OrderSide.buy)).platforms
    ≡ shown (view (run_book history (Orderbook.new "token" "market")) true "polymarket" 3)
unfolding read
published_change-view_example =
    published_change-view (change_of "kalshi") store _ "|||" "polymarket" OrderSide.buy 3 stored
      refl
