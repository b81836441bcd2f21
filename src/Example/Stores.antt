-- ===== src/Example/Stores.antt =====
-- The theorems on the store, at three messages about one asset.
use wup_demo.Prelude.{◌%◌, length, ◌≡◌, some, [], ◌∷◌, keep, List, ◌∙◌}
use wup_demo.Example.Tally.{tally}
use wup_demo.Example.Messages.{book_of, change_of}
use wup_demo.DashMap.Local.{local_maps}
use wup_demo.Schema.{NormalizedOrderbook}
use wup_demo.Orderbook
use wup_demo.Orderbook.{Orderbook, u64_mod}
use wup_demo.Store.{new, find_book}
use wup_demo.Store.Replay.{run, run_book, is_for, replayed, find_book-run}
use wup_demo.Store.Counts.{stats_of, is_snapshot, is_delta, stats-list_all, counters-run}
use wup_demo.Store.Listing.{stats, list_all}
use wup_demo.Store.Health.{IsBookOf, stored-IsBookOf, find_book-new}

abbrev pub history : List NormalizedOrderbook
history = book_of "polymarket" ∷ book_of "kalshi" ∷ change_of "kalshi" ∷ []

find_book-run_example :
    find_book "market" "token" (run history new)
    ≡ replayed (keep (is_for "market" "token") history) (find_book "market" "token" new)
find_book-run_example = find_book-run history new "market" "token"

pub stored :
    find_book "market" "token" (run history new)
    ≡ some (run_book history (Orderbook.new "token" "market"))
unfolding is_for run_book
stored = find_book-run history new "market" "token" ∙ rw (find_book-new "market" "token")

stored-IsBookOf_example :
    IsBookOf "market" "token" (run_book history (Orderbook.new "token" "market"))
stored-IsBookOf_example = stored-IsBookOf history "market" "token" _ stored

stats-list_all_example : stats (run history new) ≡ stats_of (list_all (run history new))
stats-list_all_example = stats-list_all (run history new)

counters-run_example :
    ((run history new).total_snapshots ≡ length (keep is_snapshot history) % u64_mod)
    × ((run history new).total_deltas ≡ length (keep is_delta history) % u64_mod)
counters-run_example = counters-run history
