-- ===== src/Gateway/Router/Recipients.antt =====
-- Who receives a published change.
use wup_demo.Prelude.{
  Eq, String, Bool, true, ◌&&◌, some, List, [], ◌∷◌, map, keep, ◌≡◌, ◌↔◌, refl, ◌∙◌, ap, arith,
}
use wup_demo.DashMap.{DashMaps}
use wup_demo.HashMap
use wup_demo.HashMap.{HashMap}
use wup_demo.Schema.{AggregatedPriceChangeEvent}
use wup_demo.Text.{split}
use wup_demo.Subscription.{build_subject, matches_subject}
use wup_demo.Registry.{ClientRegistry}
use wup_demo.Registry.Routing.{has_id, get_matching_subscribers}
use wup_demo.Registry.Consistency.{subscribed, IsConsistent}
use wup_demo.Registry.Fanout.{matching_subscribers_iff}
use wup_demo.Gateway.{ServerMessage, from_event}
use wup_demo.Gateway.Router.{
  Wire, handle_change, payload_ids, extract_ids_fast, deliver_to, send_to_all,
}

module _ {ClientId : Type 0} ⦃i : Eq ClientId⦄ where
  -- The clients that are sent a text.
  abbrev pub receivers : List (ClientId × String) → List ClientId
  receivers = map (λ p. p.0)

  has_id-keep :
      (c : ClientId) (p : ClientId → Bool) (ids : List ClientId)
      → has_id c (keep p ids) ≡ (p c && has_id c ids)
  has_id-keep c p [] = ground arith
  has_id-keep c p (id ∷ ids) = ground (arith, i.beq_iff id c, has_id-keep c p ids)

  receivers-send_to_all :
      (accepts : ClientId → Bool) (json : String) (ids : List ClientId)
      → receivers (map (λ id. (id, json)) (keep accepts ids)) ≡ keep accepts ids
  receivers-send_to_all accepts json ids = go (keep accepts ids)
    where
      go : (ks : List ClientId) → receivers (map (λ id. (id, json)) ks) ≡ ks
      go [] = refl
      go (k ∷ ks) = ap (k ∷◌) (go ks)

module _ ⦃J : Wire⦄ where
  payload_ids-event :
      (payload : J.Payload) (event : AggregatedPriceChangeEvent)
      → J.event_from_slice payload ≡ some event
      → payload_ids payload ≡ some (event.market_id, event.asset_id)
  unfolding payload_ids extract_ids_fast
  payload_ids-event payload event read =
      rw (payload_ids, extract_ids_fast, J.ids-event payload event read)

module _ ⦃J : Wire⦄ ⦃M : DashMaps⦄ {ClientId : Type 0} ⦃i : Eq ClientId⦄ where
  handle_change-sent :
      (accepts : ClientId → Bool) (payload : J.Payload) (event : AggregatedPriceChangeEvent)
      (json : String) (reg : ClientRegistry ClientId)
      → J.event_from_slice payload ≡ some event
      → J.to_string (ServerMessage.price_change (from_event event)) ≡ some json
      → handle_change accepts payload reg ≡ record {
        sent = send_to_all accepts json (
            HashMap.keys
              (get_matching_subscribers (build_subject event.market_id event.asset_id) reg));
        is_ok = true;
      }
  unfolding handle_change send_to_all
  handle_change-sent accepts payload event json reg read written =
      rw (payload_ids-event payload event read, handle_change)
        (go (
          HashMap.keys
            (get_matching_subscribers (build_subject event.market_id event.asset_id) reg)))
    where
      go :
          (ids : List ClientId)
          → deliver_to accepts payload ids
            ≡ record { sent = map (λ id. (id, json)) (keep accepts ids); is_ok = true }
      go [] = refl
      go (id ∷ ids) = rw (read, written)

  -- A published change that can be read reaches exactly the registered clients whose channel has
  -- room and that hold a subscription which matches the subject of its market and asset, by
  -- wildcard or word for word, while the indexes agree with the clients' subscriptions; and the
  -- handler returns without an error.
  pub receivers-handle_change :
      (accepts : ClientId → Bool) (payload : J.Payload) (event : AggregatedPriceChangeEvent)
      (json : String) (reg : ClientRegistry ClientId) (c : ClientId)
      → J.event_from_slice payload ≡ some event
      → J.to_string (ServerMessage.price_change (from_event event)) ≡ some json
      → IsConsistent reg
      → ((handle_change accepts payload reg).is_ok ≡ true)
        × ((has_id c (receivers (handle_change accepts payload reg).sent) ≡ true) ↔ (
            (accepts c ≡ true)
            × ((p : String) × ((subscribed c p reg ≡ true)
                  × (matches_subject p (split (build_subject event.market_id event.asset_id))
                      ≡ true)))))
  unfolding send_to_all
  receivers-handle_change accepts payload event json reg c read written h =
      let subject = build_subject event.market_id event.asset_id in
      let ids = HashMap.keys (get_matching_subscribers subject reg) in
      let all = handle_change-sent accepts payload event json reg read written in
      let matched = matching_subscribers_iff reg subject c h in
      let reached : has_id c (receivers (send_to_all accepts json ids))
          ≡ (accepts c && has_id c ids) =
        ap (has_id c) (receivers-send_to_all accepts json ids) ∙ has_id-keep c accepts ids in
      rw all (
        refl,
        (
          λ k. (ground (arith, reached, k), matched.0 (ground (arith, reached, k))),
          λ q. ground (arith, reached, q.0, matched.1 q.1),
        ),
      )
