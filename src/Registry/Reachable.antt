-- ===== src/Registry/Reachable.antt =====
-- The registries that the calls of crates/gateway/src/client.rs can come to.
use wup_demo.Prelude.{
  ℤ, Eq, String, string_eq, false, ◌&&◌, Option, none, some, List, [], ◌∷◌, ◌≡◌, ◌∙◌, sym, ap,
  arith, Bool-cases, Option-cases, inl, inr, not, subst,
}
use wup_demo.DashMap.{DashMaps}
use wup_demo.HashMap
use wup_demo.Registry.{
  Display, client_not_found, known, Result, ok, err, ClientState, ClientRegistry,
  is_wildcard_pattern, new, new_client, register, change_client, subscribe_one, unsubscribe_one,
  for_each, subscribe, unsubscribe, unregister,
}
use wup_demo.Registry.Index.{has-empty}
use wup_demo.Registry.Consistency.{
  holds, subscribed, IsConsistent, subscribe_one-IsConsistent, still_known,
}
use wup_demo.Registry.Leaving.{unsubscribe_one-IsConsistent, unregister-IsConsistent}

module _ ⦃M : DashMaps⦄ {ClientId : Type 0} ⦃i : Eq ClientId⦄ where
  pub clients-subscribe_one :
      (id : ClientId) (s : String) (reg : ClientRegistry ClientId)
      → (subscribe_one id s reg).clients ≡ change_client id (M.insert s tt) reg.clients
  unfolding subscribe_one
  clients-subscribe_one id s reg = elim (Bool-cases (is_wildcard_pattern s)) [
    | inl w ↦ rw w
    | inr w ↦ rw w
  ]

  clients-unsubscribe_one :
      (id : ClientId) (s : String) (reg : ClientRegistry ClientId)
      → (unsubscribe_one id s reg).clients ≡ change_client id (M.remove s) reg.clients
  unfolding unsubscribe_one
  clients-unsubscribe_one id s reg = elim (Bool-cases (is_wildcard_pattern s)) [
    | inl w ↦ rw w
    | inr w ↦ rw w
  ]

  subscribe_all-IsConsistent :
      (id : ClientId) (subjects : List String) (client : ClientState)
      (reg : ClientRegistry ClientId)
      → M.get id reg.clients ≡ some client
      → IsConsistent reg
      → IsConsistent (for_each (subscribe_one id) subjects reg)
  unfolding for_each
  subscribe_all-IsConsistent id [] client reg k h = h
  subscribe_all-IsConsistent id (s ∷ subjects) client reg k h =
      let (client', k') = still_known id client (M.insert s tt) reg.clients k in
      subscribe_all-IsConsistent id subjects client' (subscribe_one id s reg)
        (ap (M.get id) (clients-subscribe_one id s reg) ∙ k')
        (subscribe_one-IsConsistent id s client reg k h)

  unsubscribe_all-IsConsistent :
      (id : ClientId) (subjects : List String) (client : ClientState)
      (reg : ClientRegistry ClientId)
      → M.get id reg.clients ≡ some client
      → IsConsistent reg
      → IsConsistent (for_each (unsubscribe_one id) subjects reg)
  unfolding for_each
  unsubscribe_all-IsConsistent id [] client reg k h = h
  unsubscribe_all-IsConsistent id (s ∷ subjects) client reg k h =
      let (client', k') = still_known id client (M.remove s) reg.clients k in
      unsubscribe_all-IsConsistent id subjects client' (unsubscribe_one id s reg)
        (ap (M.get id) (clients-unsubscribe_one id s reg) ∙ k')
        (unsubscribe_one-IsConsistent id s client reg k h)

  new-IsConsistent : IsConsistent {ClientId = ClientId} new
  unfolding HashMap.get
  new-IsConsistent = record {
    all = λ c p. rw (M.get-empty p) (sym (nobody c p));
    exact = λ c p. rw (M.get-empty p) (ground (arith, nobody c p));
    patterns = λ c p. ground (arith, nobody c p);
    distinct = tt;
  }
    where
      nobody : (c : ClientId) (p : String) → subscribed {ClientId = ClientId} c p new ≡ false
      nobody c p = rw (M.get-empty c)

  -- A newcomer holds nothing, as a client that is not registered does.
  register-IsConsistent :
      (id : ClientId) (now : ℤ) (reg : ClientRegistry ClientId)
      → M.get id reg.clients ≡ none
      → IsConsistent reg
      → IsConsistent (register id (new_client now) reg)
  unfolding register
  register-IsConsistent id now reg k h = record {
    all = λ c p. h.all c p ∙ sym (same c p);
    exact = λ c p. h.exact c p ∙ ap (λ b. not (is_wildcard_pattern p) && b) (sym (same c p));
    patterns = λ c p. h.patterns c p ∙ ap (λ b. is_wildcard_pattern p && b) (sym (same c p));
    distinct = h.distinct;
  }
    where
      same :
          (c : ClientId) (p : String)
          → holds p (M.get c (M.insert id (new_client now) reg.clients)) ≡ subscribed c p reg
      same c p =
          rw (M.get-insert id c (new_client now) reg.clients) (elim (Bool-cases (i.beq id c)) [
            | inl e ↦ rw e (has-empty p ∙ rw (← (i.beq_iff id c).0 e, k))
            | inr e ↦ rw e
          ])

  -- The calls that the gateway makes. An identifier is drawn at random, and no client in the table
  -- has it.
  pub data Reachable ⦃d : Display ClientId⦄ : ClientRegistry ClientId → Type 0 where
    started : Reachable new
    registered :
        {reg : ClientRegistry ClientId} (id : ClientId) (now : ℤ)
        → Reachable reg
        → M.get id reg.clients ≡ none
        → Reachable (register id (new_client now) reg)
    subscribes :
        {reg reg' : ClientRegistry ClientId} (id : ClientId) (subjects : List String)
        → Reachable reg
        → subscribe id subjects reg ≡ ok reg'
        → Reachable reg'
    unsubscribes :
        {reg reg' : ClientRegistry ClientId} (id : ClientId) (subjects : List String)
        → Reachable reg
        → unsubscribe id subjects reg ≡ ok reg'
        → Reachable reg'
    unregistered :
        {reg : ClientRegistry ClientId} (id : ClientId)
        → Reachable reg
        → Reachable (unregister id reg)

  module _ ⦃d : Display ClientId⦄ where
    -- A call on a known client returns the changed registry, and on any other an error.
    pub known-ok :
        (id : ClientId) (change : ClientRegistry ClientId → ClientRegistry ClientId)
        (reg reg' : ClientRegistry ClientId)
        → known id change reg ≡ ok reg'
        → (client : ClientState) × ((M.get id reg.clients ≡ some client) × (change reg ≡ reg'))
    known-ok id change reg reg' e = elim (Option-cases (M.get id reg.clients)) [
      | inl k ↦ absurd (cc (rewritten k))
      | inr (client, k) ↦ (client, (k, cc (rewritten k)))
    ]
      where
        answer : Option ClientState → Result (ClientRegistry ClientId)
        answer none = err (client_not_found (d.to_string id))
        answer (some client) = ok (change reg)

        rewritten : {o : Option ClientState} → M.get id reg.clients ≡ o → answer o ≡ ok reg'
        rewritten k = subst (λ o. answer o ≡ ok reg') k e

    pub subscribe-IsConsistent :
        (id : ClientId) (subjects : List String) (reg reg' : ClientRegistry ClientId)
        → subscribe id subjects reg ≡ ok reg'
        → IsConsistent reg
        → IsConsistent reg'
    unfolding subscribe
    subscribe-IsConsistent id subjects reg reg' e h =
        let (client, (k, same)) = known-ok id (for_each (subscribe_one id) subjects) reg reg' e in
        subst IsConsistent same (subscribe_all-IsConsistent id subjects client reg k h)

    pub unsubscribe-IsConsistent :
        (id : ClientId) (subjects : List String) (reg reg' : ClientRegistry ClientId)
        → unsubscribe id subjects reg ≡ ok reg'
        → IsConsistent reg
        → IsConsistent reg'
    unfolding unsubscribe
    unsubscribe-IsConsistent id subjects reg reg' e h =
        let (client, (k, same)) = known-ok id (for_each (unsubscribe_one id) subjects) reg reg' e in
        subst IsConsistent same (unsubscribe_all-IsConsistent id subjects client reg k h)

    -- However the gateway got there by registering, subscribing, unsubscribing and unregistering, the
    -- three indexes agree with the clients' own subscriptions, and no pattern stands twice.
    pub Reachable-IsConsistent : {reg : ClientRegistry ClientId} → Reachable reg → IsConsistent reg
    Reachable-IsConsistent started = new-IsConsistent
    Reachable-IsConsistent (registered {reg = reg} id now r fresh) =
        register-IsConsistent id now reg fresh (Reachable-IsConsistent r)
    Reachable-IsConsistent (subscribes {reg = reg} {reg' = reg'} id subjects r e) =
        subscribe-IsConsistent id subjects reg reg' e (Reachable-IsConsistent r)
    Reachable-IsConsistent (unsubscribes {reg = reg} {reg' = reg'} id subjects r e) =
        unsubscribe-IsConsistent id subjects reg reg' e (Reachable-IsConsistent r)
    Reachable-IsConsistent (unregistered {reg = reg} id r) =
        unregister-IsConsistent id reg (Reachable-IsConsistent r)
