-- ===== src/Store/Counts.antt =====
-- The counters of the store, and the totals of the answers about whole markets.
use wup_demo.Prelude.{
  ℕ, ◌+◌, ◌%◌, String, string_eq, List, [], ◌∷◌, ◌≡◌, ◌∙◌, ap, arith, map, length, length-map, keep,
  keep-hit, keep-miss, not, Bool, true, false, inl, inr,
}
use wup_demo.Decimal.{Decimals}
use wup_demo.DashMap.{DashMaps}
use wup_demo.Schema.{NormalizedOrderbook, OrderbookMessageType}
use wup_demo.Orderbook.{Orderbook, u64_mod}
use wup_demo.Store.{OrderbookStore, build_response_metadata, new, apply}
use wup_demo.Orderbook.Invariant.{Type-cases}
use wup_demo.Response.{to_summary}
use wup_demo.Store.Replay.{run}
use wup_demo.Store.Listing.{
  Books, AllOrderbooksResponse, StoreStats, sum_assets, summarize, list_all, count_assets, stats,
}

count_next : (n : ℕ) → (n % u64_mod + 1) % u64_mod ≡ (n + 1) % u64_mod
count_next n = omega arith

abbrev pub is_snapshot : NormalizedOrderbook → Bool
is_snapshot msg = elim msg.message_type [
  | OrderbookMessageType.snapshot ↦ true
  | OrderbookMessageType.delta ↦ false
]

abbrev pub is_delta : NormalizedOrderbook → Bool
is_delta msg = not (is_snapshot msg)

module _ ⦃D : Decimals⦄ ⦃M : DashMaps⦄ where
  count-sum :
      (store : OrderbookStore) (markets : List (String × Books)) (total : ℕ)
      → count_assets markets total ≡ total + sum_assets (map (summarize store) markets)
  unfolding count_assets sum_assets summarize
  count-sum store [] total = omega arith
  count-sum store (m ∷ markets) total =
      count-sum store markets (total + length (M.iter m.1))
      ∙ omega (
        arith,
        length-map (λ (e : String × Orderbook). to_summary (build_response_metadata m.0 store) e.1)
            (M.iter m.1),
      )

  count-from_zero :
      (store : OrderbookStore) (markets : List (String × Books))
      → count_assets markets 0 ≡ sum_assets (map (summarize store) markets)
  count-from_zero store markets = omega (arith, count-sum store markets 0)

  -- What a listing says of its totals.
  abbrev pub stats_of : AllOrderbooksResponse → StoreStats
  stats_of r = record {
    market_count = r.market_count;
    total_assets = r.total_assets;
    total_snapshots = r.total_snapshots;
    total_deltas = r.total_deltas;
  }

  -- The statistics of a store are the totals of its listing: as many markets, as many assets over
  -- all markets, and the same counters.
  pub stats-list_all : (store : OrderbookStore) → stats store ≡ stats_of (list_all store)
  unfolding stats list_all
  stats-list_all store = rw (
    length-map (summarize store) (M.iter store.books),
    count-from_zero store (M.iter store.books),
  )

  counted_from :
      (msgs : List NormalizedOrderbook) (store : OrderbookStore) (a b : ℕ)
      → store.total_snapshots ≡ a % u64_mod
      → store.total_deltas ≡ b % u64_mod
      → ((run msgs store).total_snapshots ≡ (a + length (keep is_snapshot msgs)) % u64_mod)
        × ((run msgs store).total_deltas ≡ (b + length (keep is_delta msgs)) % u64_mod)
  unfolding run apply
  counted_from [] store a b h k = (omega (arith, h), omega (arith, k))
  counted_from (msg ∷ msgs) store a b h k = elim (Type-cases msg.message_type) [
    | inl e ↦
        let rest =
          counted_from msgs (apply msg store) (a + 1) b
            (rw e (ap (λ n. (n + 1) % u64_mod) h ∙ count_next a)) (rw e k) in
        (
          rest.0 ∙ rw (keep-hit is_snapshot msg msgs (rw e)) (omega arith),
          rest.1 ∙ rw (keep-miss is_delta msg msgs (rw e)),
        )
    | inr e ↦
        let rest =
          counted_from msgs (apply msg store) a (b + 1) (rw e h)
            (rw e (ap (λ n. (n + 1) % u64_mod) k ∙ count_next b)) in
        (
          rest.0 ∙ rw (keep-miss is_snapshot msg msgs (rw e)),
          rest.1 ∙ rw (keep-hit is_delta msg msgs (rw e)) (omega arith),
        )
  ]

  -- The counters of a store that was new are the numbers of snapshots and of deltas among the
  -- messages it has applied, modulo 2^64.
  pub counters-run :
      (msgs : List NormalizedOrderbook)
      → ((run msgs new).total_snapshots ≡ length (keep is_snapshot msgs) % u64_mod)
        × ((run msgs new).total_deltas ≡ length (keep is_delta msgs) % u64_mod)
  counters-run msgs =
      let h = counted_from msgs new 0 0 (omega arith) (omega arith) in
      (omega (arith, h.0), omega (arith, h.1))
