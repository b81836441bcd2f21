-- ===== src/Example/Books.antt =====
-- The theorems on one book, at the book that two snapshots make and a delta on it.
use wup_demo.Prelude.{◌≡◌, refl, some, true, false, eq_iff, string_eq, arith, ◌%◌, ◌+◌}
use wup_demo.Example.Tally.{tally, read}
use wup_demo.Example.Messages.{book_of, change_of}
use wup_demo.HashMap
use wup_demo.OrderedMap
use wup_demo.PlatformSizes
use wup_demo.Orderbook
use wup_demo.Orderbook.{Orderbook, u64_mod, apply_snapshot_platform, apply_levels}
use wup_demo.Orderbook.View.{view, quote}
use wup_demo.Orderbook.Invariant.{IsSound, apply-IsSound, new-IsSound}
use wup_demo.Orderbook.Bbo.{IsGreatest, IsLeast}
use wup_demo.Orderbook.Refinement.{view-apply, apply_isolation}
use wup_demo.Orderbook.Best.{apply-best}
use wup_demo.Orderbook.Header.{header, with_platform, header-apply}

abbrev two_books : Orderbook
two_books =
    Orderbook.apply (book_of "kalshi")
      (Orderbook.apply (book_of "polymarket") (Orderbook.new "token" "market"))

abbrev changed : Orderbook
changed = Orderbook.apply (change_of "kalshi") two_books

two_books-IsSound : IsSound two_books
two_books-IsSound =
    apply-IsSound (book_of "kalshi") _
      (apply-IsSound (book_of "polymarket") _ (new-IsSound "token" "market"))

changed_bids : changed.system_best_bid ≡ some 3
unfolding Orderbook.apply Orderbook.update_metadata Orderbook.cleanup_empty_levels
    Orderbook.recalculate_system_bbo Orderbook.apply_levels Orderbook.update_exchange_bbo
    Orderbook.track_platform Orderbook.apply_snapshot_platform Orderbook.apply_delta_platform
    Orderbook.insert_optional_levels Orderbook.insert_levels Orderbook.insert_level_platform
    Orderbook.apply_updates Orderbook.apply_update_platform Orderbook.clear_platform
    Orderbook.first_price OrderedMap.entry OrderedMap.retain OrderedMap.change_values
    PlatformSizes.set PlatformSizes.is_empty PlatformSizes.clear_platform HashMap.insert
    HashMap.remove read
changed_bids = refl

view-apply_example : view changed ≡ quote (change_of "kalshi") (view two_books)
view-apply_example = view-apply (change_of "kalshi") two_books two_books-IsSound

apply_isolation_example : view changed true "polymarket" 3 ≡ view two_books true "polymarket" 3
apply_isolation_example =
    apply_isolation (change_of "kalshi") two_books two_books-IsSound true "polymarket" 3
      (ground (arith, eq_iff "polymarket" "kalshi"))

apply-best_example :
    IsGreatest (view changed true) changed.system_best_bid
    × IsLeast (view changed false) changed.system_best_ask
apply-best_example = apply-best (change_of "kalshi") two_books two_books-IsSound

header-apply_example : header changed ≡ record {
  clob_token_id = two_books.clob_token_id;
  market_id = two_books.market_id;
  platforms = with_platform "kalshi" two_books.platforms;
  exchange_best_bid = two_books.exchange_best_bid;
  exchange_best_ask = HashMap.insert "kalshi" "|||||" two_books.exchange_best_ask;
  update_count = (two_books.update_count + 1) % u64_mod;
}
header-apply_example = header-apply (change_of "kalshi") two_books
