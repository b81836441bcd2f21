-- ===== src/Gateway/Answers.antt =====
-- What a client may rely on when the gateway answers (crates/gateway/src/ws_server.rs).
use wup_demo.Prelude.{
  Eq, String, string_eq, str_eq, eq_refl, Bool, true, false, ◌||◌, none, some, List, [], ◌∷◌, ◌≡◌,
  refl, ◌∙◌, sym, ap, subst, arith, ◌⊎◌, Option-cases, inl, inr,
}
use wup_demo.DashMap.{DashMaps}
use wup_demo.Subscription.{validate_pattern}
use wup_demo.Registry.{
  Display, GatewayError, invalid_subject, Result, ok, err, ClientState, ClientRegistry,
  subscribe_one, for_each, subscribe,
}
use wup_demo.Registry.Consistency
use wup_demo.Registry.Consistency.{holds, IsConsistent, subscribed-subscribe, still_known}
use wup_demo.Registry.Reachable.{clients-subscribe_one, known-ok}
use wup_demo.Gateway.{
  ServerMessage, Outcome, first_error, all_snapshots, answer, refuse, handle_subscribe,
}

-- The property for every element of the list.
abbrev pub Each : (String → Type 0) → List String → Type 0
Each P [] = Unit
Each P (s ∷ ss) = P s × Each P ss

refused :
    (s : String) (ss : List String) (text : String)
    → validate_pattern s ≡ some text
    → some text ≡ first_error (s ∷ ss)
unfolding first_error
refused s ss text e = rw (e, first_error)

all_valid : (ss : List String) → first_error ss ≡ none → Each (λ s. validate_pattern s ≡ none) ss
unfolding first_error
all_valid [] h = tt
all_valid (s ∷ ss) h = elim (Option-cases (validate_pattern s)) [
  | inl e ↦ (e, all_valid ss (sym (rw (e, first_error)) ∙ h))
  | inr (text, e) ↦ absurd (cc (refused s ss text e ∙ h))
]

Each-both :
    (P Q : String → Type 0) (ss : List String) → Each P ss → Each Q ss → Each (λ s. P s × Q s) ss
Each-both P Q [] p q = tt
Each-both P Q (s ∷ ss) p q = ((p.0, q.0), Each-both P Q ss p.1 q.1)

pub Result-cases :
    {A : Type 0} (r : Result A) → ((e : GatewayError) × (r ≡ err e)) ⊎ ((a : A) × (r ≡ ok a))
Result-cases (err e) = inl (e, refl)
Result-cases (ok a) = inr (a, refl)

module _ ⦃M : DashMaps⦄ {ClientId : Type 0} ⦃i : Eq ClientId⦄ where
  after_one :
      (id : ClientId) (s p : String) (client : ClientState) (reg : ClientRegistry ClientId)
      → M.get id reg.clients ≡ some client
      → Consistency.subscribed id p (subscribe_one id s reg)
        ≡ (str_eq s p || Consistency.subscribed id p reg)
  after_one id s p client reg k =
      ap (λ clients. holds p (M.get id clients)) (clients-subscribe_one id s reg)
      ∙ subscribed-subscribe id id s p client reg.clients k
      ∙ ground (arith, (i.beq_iff id id).1 refl)

  known_after :
      (id : ClientId) (s : String) (client : ClientState) (reg : ClientRegistry ClientId)
      → M.get id reg.clients ≡ some client
      → (client' : ClientState) × (M.get id (subscribe_one id s reg).clients ≡ some client')
  known_after id s client reg k =
      let (client', k') = still_known id client (M.insert s tt) reg.clients k in
      (client', ap (M.get id) (clients-subscribe_one id s reg) ∙ k')

  stays :
      (id : ClientId) (p : String) (ss : List String) (client : ClientState)
      (reg : ClientRegistry ClientId)
      → M.get id reg.clients ≡ some client
      → Consistency.subscribed id p reg ≡ true
      → Consistency.subscribed id p (for_each (subscribe_one id) ss reg) ≡ true
  unfolding for_each
  stays id p [] client reg k h = h
  stays id p (s ∷ ss) client reg k h =
      let (client', k') = known_after id s client reg k in
      stays id p ss client' (subscribe_one id s reg) k'
        (after_one id s p client reg k ∙ rw h (ground arith))

  all_subscribed :
      (id : ClientId) (ss : List String) (client : ClientState) (reg : ClientRegistry ClientId)
      → M.get id reg.clients ≡ some client
      → Each (λ s. Consistency.subscribed id s (for_each (subscribe_one id) ss reg) ≡ true) ss
  unfolding for_each
  all_subscribed id [] client reg k = tt
  all_subscribed id (s ∷ ss) client reg k =
      let (client', k') = known_after id s client reg k in
      (
        stays id s ss client' (subscribe_one id s reg) k'
            (after_one id s s client reg k ∙ rw (eq_refl s)),
        all_subscribed id ss client' (subscribe_one id s reg) k',
      )

  module _ ⦃d : Display ClientId⦄ where
    subscribed_in :
        (id : ClientId) (subjects : List String) (reg reg' : ClientRegistry ClientId)
        → subscribe id subjects reg ≡ ok reg'
        → Each (λ s. Consistency.subscribed id s reg' ≡ true) subjects
    unfolding subscribe
    subscribed_in id subjects reg reg' e =
        let (client, (k, same)) = known-ok id (for_each (subscribe_one id) subjects) reg reg' e in
        subst (λ r. Each (λ s. Consistency.subscribed id s r ≡ true) subjects) same
          (all_subscribed id subjects client reg k)

    pub registry-answer :
        (accepts : Bool) (message : ServerMessage) (more : List ServerMessage)
        (reg : ClientRegistry ClientId)
        → (answer accepts message more reg).registry ≡ reg
    registry-answer true message more reg = refl
    registry-answer false message more reg = refl

    -- If a request to subscribe is answered without an error, whatever the sending of snapshots
    -- does, then each subject of the request is a valid pattern and is among the client's
    -- subscriptions.
    pub handle_subscribe-confirmed :
        (accepts : Bool) (snapshots : String → List ServerMessage) (id : ClientId)
        (subjects : List String) (reg : ClientRegistry ClientId)
        → (handle_subscribe accepts snapshots id subjects reg).failure ≡ none
        → Each
            (λ s.
              (validate_pattern s ≡ none)
              × (Consistency.subscribed id s
                    (handle_subscribe accepts snapshots id subjects reg).registry
                  ≡ true))
            subjects
    unfolding handle_subscribe
    handle_subscribe-confirmed accepts snapshots id subjects reg h =
        elim (Option-cases (first_error subjects)) [
          | inr (text, e) ↦
              let whole : handle_subscribe accepts snapshots id subjects reg
                  ≡ refuse (invalid_subject text) reg =
                rw (e, handle_subscribe) in
              absurd (cc (sym (ap (λ (o : Outcome ClientId). o.failure) whole) ∙ h))
          | inl e ↦ elim (Result-cases (subscribe id subjects reg)) [
            | inl (g, f) ↦
                let whole : handle_subscribe accepts snapshots id subjects reg ≡ refuse g reg =
                  rw (e, handle_subscribe, f) in
                absurd (cc (sym (ap (λ (o : Outcome ClientId). o.failure) whole) ∙ h))
            | inr (reg', f) ↦
                rw
                  (
                    e,
                    handle_subscribe,
                    f,
                    registry-answer accepts (ServerMessage.subscribed subjects)
                        (all_snapshots snapshots subjects) reg',
                  )
                  (Each-both _ _ subjects (all_valid subjects e)
                    (subscribed_in id subjects reg reg' f))
          ]
        ]
