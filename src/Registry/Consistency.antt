-- ===== src/Registry/Consistency.antt =====
-- What it means that the indexes of client.rs agree with the clients' own subscriptions.
use wup_demo.Prelude.{
  Eq, String, string_eq, str_eq, eq_iff, Bool, true, false, ◌&&◌, ◌||◌, not, Option, none, some,
  ◌≡◌, refl, ◌∙◌, sym, ap, arith, Bool-cases, inl, inr, if◌then◌else◌,
}
use wup_demo.DashMap.{DashMaps, DashMap, DashSet}
use wup_demo.HashMap
use wup_demo.HashMap.{HashMap, Distinct}
use wup_demo.HashMap.Laws.{insert-Distinct}
use wup_demo.Registry.{
  ClientState, ClientRegistry, is_wildcard_pattern, with_client, change_client, subscribe_one,
}
use wup_demo.Registry.Index.{has, has_in, has-insert, has-remove, add-index, add-patterns}

module _ ⦃M : DashMaps⦄ where
  -- Does this state hold the subject among its subscriptions?
  abbrev pub holds : String → Option ClientState → Bool
  holds p none = false
  holds p (some client) = has p client.subscriptions

module _ ⦃M : DashMaps⦄ {ClientId : Type 0} ⦃i : Eq ClientId⦄ where
  -- A registered client holds the subject.
  abbrev pub subscribed : ClientId → String → ClientRegistry ClientId → Bool
  subscribed c p reg = holds p (M.get c reg.clients)

  abbrev pub in_all : ClientId → String → ClientRegistry ClientId → Bool
  in_all c p reg = has_in c (M.get p reg.subscriptions)

  abbrev pub in_exact : ClientId → String → ClientRegistry ClientId → Bool
  in_exact c p reg = has_in c (M.get p reg.exact_subscriptions)

  abbrev pub in_patterns : ClientId → String → ClientRegistry ClientId → Bool
  in_patterns c p reg = has_in c (HashMap.get p reg.wildcard_patterns)

  -- The main index holds every subscription of a registered client, the exact index those without
  -- wildcards, the patterns those with; and nothing else. No pattern stands twice.
  pub record IsConsistent (reg : ClientRegistry ClientId) : Type 0 where
    pub all : (c : ClientId) (p : String) → in_all c p reg ≡ subscribed c p reg
    pub exact :
        (c : ClientId) (p : String)
        → in_exact c p reg ≡ (not (is_wildcard_pattern p) && subscribed c p reg)
    pub patterns :
        (c : ClientId) (p : String)
        → in_patterns c p reg ≡ (is_wildcard_pattern p && subscribed c p reg)
    pub distinct : Distinct reg.wildcard_patterns

  abbrev pub IsKnown : ClientId → ClientRegistry ClientId → Type 0
  IsKnown id reg = (client : ClientState) × (M.get id reg.clients ≡ some client)

  holds-change :
      (id c : ClientId) (p : String) (client : ClientState)
      (change : DashSet String → DashSet String) (clients : DashMap ClientId ClientState)
      → M.get id clients ≡ some client
      → holds p (M.get c (change_client id change clients))
        ≡ (if i.beq id c then has p (change client.subscriptions) else holds p (M.get c clients))
  holds-change id c p client change clients k =
      rw (k, change_client)
        (rw (M.get-insert id c _ clients)
          (elim (Bool-cases (i.beq id c)) [ inl h ↦ rw h | inr h ↦ rw h ]))

  same_client :
      (id c : ClientId) (p : String) (client : ClientState) (clients : DashMap ClientId ClientState)
      → M.get id clients ≡ some client
      → i.beq id c ≡ true
      → holds p (M.get c clients) ≡ has p client.subscriptions
  same_client id c p client clients k h =
      ap (λ d. holds p (M.get d clients)) (sym ((i.beq_iff id c).0 h)) ∙ rw k

  pub subscribed-subscribe :
      (id c : ClientId) (s p : String) (client : ClientState)
      (clients : DashMap ClientId ClientState)
      → M.get id clients ≡ some client
      → holds p (M.get c (change_client id (M.insert s tt) clients))
        ≡ ((str_eq s p && i.beq id c) || holds p (M.get c clients))
  subscribed-subscribe id c s p client clients k =
      holds-change id c p client (M.insert s tt) clients k ∙ elim (Bool-cases (i.beq id c)) [
        | inl h ↦ rw h (
            has-insert s p client.subscriptions
            ∙ ground (arith, same_client id c p client clients k h))
        | inr h ↦ rw h (ground arith)
      ]

  pub subscribed-unsubscribe :
      (id c : ClientId) (s p : String) (client : ClientState)
      (clients : DashMap ClientId ClientState)
      → M.get id clients ≡ some client
      → holds p (M.get c (change_client id (M.remove s) clients))
        ≡ (not (str_eq s p && i.beq id c) && holds p (M.get c clients))
  subscribed-unsubscribe id c s p client clients k =
      holds-change id c p client (M.remove s) clients k ∙ elim (Bool-cases (i.beq id c)) [
        | inl h ↦ rw h (
            has-remove s p client.subscriptions
            ∙ ground (arith, same_client id c p client clients k h))
        | inr h ↦ rw h (ground arith)
      ]

  pub still_known :
      (id : ClientId) (client : ClientState) (change : DashSet String → DashSet String)
      (clients : DashMap ClientId ClientState)
      → M.get id clients ≡ some client
      → (client' : ClientState) × (M.get id (change_client id change clients) ≡ some client')
  still_known id client change clients k = (
    record client { subscriptions = change client.subscriptions },
    rw (k, change_client) (M.get-insert id id _ clients ∙ rw ((i.beq_iff id id).1 refl)),
  )

  pub subscribe_one-IsConsistent :
      (id : ClientId) (s : String) (client : ClientState) (reg : ClientRegistry ClientId)
      → M.get id reg.clients ≡ some client
      → IsConsistent reg
      → IsConsistent (subscribe_one id s reg)
  unfolding subscribe_one
  subscribe_one-IsConsistent id s client reg k h = elim (Bool-cases (is_wildcard_pattern s)) [
    | inl w ↦
        rw (w, subscribe_one)
          (record {
            all = λ c p. all_after c p;
            exact = λ c p. ground (arith, h.exact c p, sub c p, eq_iff s p);
            patterns = λ c p. ground (
              arith,
              h.patterns c p,
              sub c p,
              eq_iff s p,
              add-patterns id c s p reg.wildcard_patterns,
            );
            distinct = insert-Distinct s _ reg.wildcard_patterns h.distinct;
          })
    | inr w ↦
        rw (w, subscribe_one)
          (record {
            all = λ c p. all_after c p;
            exact = λ c p. ground (
              arith,
              h.exact c p,
              sub c p,
              eq_iff s p,
              add-index id c s p reg.exact_subscriptions,
            );
            patterns = λ c p. ground (arith, h.patterns c p, sub c p, eq_iff s p);
            distinct = h.distinct;
          })
  ]
    where
      sub :
          (c : ClientId) (p : String)
          → holds p (M.get c (change_client id (M.insert s tt) reg.clients))
            ≡ ((str_eq s p && i.beq id c) || subscribed c p reg)
      sub c p = subscribed-subscribe id c s p client reg.clients k

      all_after :
          (c : ClientId) (p : String)
          → has_in c
              (M.get p (M.insert s (with_client id (M.get s reg.subscriptions)) reg.subscriptions))
            ≡ holds p (M.get c (change_client id (M.insert s tt) reg.clients))
      all_after c p =
          add-index id c s p reg.subscriptions
          ∙ ap (λ b. (str_eq s p && i.beq id c) || b) (h.all c p)
          ∙ sym (sub c p)
