-- ===== src/Gateway/Router/Snapshots.antt =====
-- What a new subscription is answered with.
use wup_demo.Prelude.{ℤ, String, str_eq, Bool, false, List, [], ◌∷◌, ◌≡◌, ◌⊎◌, refl, inl, inr}
use wup_demo.Text.{split, contains_char}
use wup_demo.Subscription.{build_subject, parse_subject}
use wup_demo.Subscription.Subjects.{parse-build_subject}
use wup_demo.Registry.{is_wildcard_pattern}
use wup_demo.Gateway.{ServerMessage}
use wup_demo.Gateway.Router.{
  RouterConfig, HttpClient, send_snapshot, send_market_snapshots, answer_orderbook, orderbook_url,
}

module _ (accepts : ServerMessage → Bool) (now : ℤ) (config : RouterConfig)
    (http : HttpClient) where
  -- A subscription to all assets of a market is answered with the snapshots of that market, for
  -- either wildcard. The market is any text without a dot: if it is a wildcard itself, the
  -- interface is asked for a market of that name.
  pub send_snapshot-market :
      (market_id wildcard : String)
      → contains_char b'.' market_id ≡ false
      → (wildcard ≡ "*") ⊎ (wildcard ≡ ">")
      → send_snapshot accepts now config http (build_subject market_id wildcard)
        ≡ send_market_snapshots accepts now config http market_id
  unfolding send_snapshot parse_subject contains_char
  send_snapshot-market market_id wildcard no_dot (inl star) =
      let e : split (build_subject market_id "*") ≡ market_id ∷ "*" ∷ [] =
        (parse-build_subject market_id "*" no_dot refl).0 in
      rw (star, e)
  send_snapshot-market market_id wildcard no_dot (inr greater) =
      let e : split (build_subject market_id ">") ≡ market_id ∷ ">" ∷ [] =
        (parse-build_subject market_id ">" no_dot refl).0 in
      rw (greater, e)

  -- A subscription without wildcards is answered by its first two segments: with the snapshot of
  -- that market and asset, whatever segments follow.
  pub send_snapshot-asset :
      (subject market_id asset_id : String) (more : List String)
      → split subject ≡ market_id ∷ asset_id ∷ more
      → is_wildcard_pattern subject ≡ false
      → str_eq asset_id "*" ≡ false
      → str_eq asset_id ">" ≡ false
      → send_snapshot accepts now config http subject
        ≡ answer_orderbook accepts now
            (http.get_orderbook (orderbook_url config market_id asset_id))
  unfolding send_snapshot is_wildcard_pattern
  send_snapshot-asset subject m a [] e w s g = rw (e, w, s, g)
  send_snapshot-asset subject m a (b ∷ more) e w s g = rw (e, w)
