-- ===== src/Gateway/Keeps.antt =====
-- What the messages of a client do to the agreement of the indexes (crates/gateway/src/ws_server.rs).
use wup_demo.Prelude.{
  ℤ, Eq, String, string_eq, Bool, ◌&&◌, not, List, [], ◌≡◌, ◌∙◌, sym, ap, subst, Bool-cases,
  Option-cases, inl, inr,
}
use wup_demo.DashMap.{DashMaps}
use wup_demo.Registry.{Display, ClientRegistry, is_wildcard_pattern, subscribe, unsubscribe}
use wup_demo.Registry.Consistency
use wup_demo.Registry.Consistency.{holds, IsConsistent, subscribed-subscribe, still_known}
use wup_demo.Registry.Reachable.{subscribe-IsConsistent, unsubscribe-IsConsistent}
use wup_demo.Gateway.{
  ClientMessage, ServerMessage, first_error, all_snapshots, update_ping, handle_subscribe,
  handle_unsubscribe, handle_client_message,
}
use wup_demo.Gateway.Answers.{Result-cases, registry-answer}

module _ ⦃M : DashMaps⦄ {ClientId : Type 0} ⦃i : Eq ClientId⦄ where
  module _ ⦃d : Display ClientId⦄ where
    subscribe-keeps :
        (accepts : Bool) (snapshots : String → List ServerMessage) (id : ClientId)
        (subjects : List String) (reg : ClientRegistry ClientId)
        → IsConsistent reg
        → IsConsistent (handle_subscribe accepts snapshots id subjects reg).registry
    unfolding handle_subscribe
    subscribe-keeps accepts snapshots id subjects reg h =
        elim (Option-cases (first_error subjects)) [
          | inr (text, e) ↦ rw (e, handle_subscribe) h
          | inl e ↦ elim (Result-cases (subscribe id subjects reg)) [
            | inl (g, f) ↦ rw (e, handle_subscribe, f) h
            | inr (reg', f) ↦
                rw
                  (
                    e,
                    handle_subscribe,
                    f,
                    registry-answer accepts (ServerMessage.subscribed subjects)
                        (all_snapshots snapshots subjects) reg',
                  )
                  (subscribe-IsConsistent id subjects reg reg' f h)
          ]
        ]

    unsubscribe-keeps :
        (accepts : Bool) (id : ClientId) (subjects : List String) (reg : ClientRegistry ClientId)
        → IsConsistent reg
        → IsConsistent (handle_unsubscribe accepts id subjects reg).registry
    unfolding handle_unsubscribe
    unsubscribe-keeps accepts id subjects reg h =
        elim (Result-cases (unsubscribe id subjects reg)) [
          | inl (g, f) ↦ rw (f, handle_unsubscribe) h
          | inr (reg', f) ↦
              rw
                (
                  f,
                  handle_unsubscribe,
                  registry-answer accepts (ServerMessage.unsubscribed subjects) [] reg',
                )
                (unsubscribe-IsConsistent id subjects reg reg' f h)
        ]

    -- A ping changes the time of the last one, and no subscription.
    same_subscriptions :
        (now : ℤ) (id c : ClientId) (p : String) (reg : ClientRegistry ClientId)
        → Consistency.subscribed c p (update_ping now id reg) ≡ Consistency.subscribed c p reg
    unfolding update_ping
    same_subscriptions now id c p reg = elim (Option-cases (M.get id reg.clients)) [
      | inl e ↦ rw (e, update_ping)
      | inr (client, e) ↦
          rw (e, update_ping, M.get-insert id c (record client { last_ping = now }) reg.clients)
            (elim (Bool-cases (i.beq id c)) [
              | inl s ↦ rw s (
                  sym (ap (λ d. holds p (M.get d reg.clients)) (sym ((i.beq_iff id c).0 s)) ∙ rw e))
              | inr s ↦ rw s
            ])
    ]

    ping-IsConsistent :
        (now : ℤ) (id : ClientId) (reg : ClientRegistry ClientId)
        → IsConsistent reg
        → IsConsistent (update_ping now id reg)
    unfolding update_ping
    ping-IsConsistent now id reg h = elim (Option-cases (M.get id reg.clients)) [
      | inl e ↦ rw (e, update_ping) h
      | inr (client, e) ↦
          let same : (c : ClientId) (p : String)
              → Consistency.subscribed c p (record reg {
                clients = M.insert id (record client { last_ping = now }) reg.clients;
              })
                ≡ Consistency.subscribed c p reg =
            λ c p. sym (rw (e, update_ping)) ∙ same_subscriptions now id c p reg in
          rw (e, update_ping)
            (record {
              all = λ c p. h.all c p ∙ sym (same c p);
              exact =
                  λ c p. h.exact c p ∙ ap (λ b. not (is_wildcard_pattern p) && b) (sym (same c p));
              patterns =
                  λ c p. h.patterns c p ∙ ap (λ b. is_wildcard_pattern p && b) (sym (same c p));
              distinct = h.distinct;
            })
    ]

    -- Whatever message a client sends, and whether it is answered or refused, indexes that agree
    -- with the clients' subscriptions agree with them afterwards.
    pub handle_client_message-IsConsistent :
        (accepts : Bool) (snapshots : String → List ServerMessage) (now : ℤ) (id : ClientId)
        (msg : ClientMessage) (reg : ClientRegistry ClientId)
        → IsConsistent reg
        → IsConsistent (handle_client_message accepts snapshots now id msg reg).registry
    unfolding handle_client_message
    handle_client_message-IsConsistent accepts snapshots now id
          (ClientMessage.subscribe_to subjects) reg h =
        subscribe-keeps accepts snapshots id subjects reg h
    handle_client_message-IsConsistent accepts snapshots now id
          (ClientMessage.unsubscribe_from subjects) reg h =
        unsubscribe-keeps accepts id subjects reg h
    handle_client_message-IsConsistent accepts snapshots now id ClientMessage.ping reg h =
        subst IsConsistent
          (sym (registry-answer accepts ServerMessage.pong [] (update_ping now id reg)))
          (ping-IsConsistent now id reg h)
