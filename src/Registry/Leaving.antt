-- ===== src/Registry/Leaving.antt =====
-- `unsubscribe` and `unregister` of crates/gateway/src/client.rs and the agreement of the indexes.
use wup_demo.Prelude.{
  Eq, String, string_eq, str_eq, eq_iff, Bool, true, false, ◌&&◌, ◌||◌, not, none, some, List, [],
  ◌∷◌, ◌≡◌, refl, ◌∙◌, sym, ap, arith, Bool-cases, Option-cases, inl, inr,
}
use wup_demo.DashMap.{DashMaps}
use wup_demo.HashMap
use wup_demo.HashMap.{HashMap, Distinct}
use wup_demo.Registry.{
  ClientState, ClientRegistry, is_wildcard_pattern, drop_from, change_client, unsubscribe_one,
  unregister_one, for_each, unregister,
}
use wup_demo.Registry.Index.{
  has, has_in, drop-index, drop-patterns, drop-all, drop_from_patterns-Distinct,
  drop_from_all-Distinct,
}
use wup_demo.Registry.Consistency.{
  holds, subscribed, in_all, in_exact, in_patterns, IsConsistent, subscribed-unsubscribe,
}

-- Is the text among these?
abbrev among : List String → String → Bool
among [] p = false
among (s ∷ subjects) p = str_eq s p || among subjects p

module _ {V : Type 0} where
  among-keys :
      (m : HashMap String V) (p : String)
      → among (HashMap.keys m) p ≡ false
      → HashMap.get p m ≡ none
  unfolding HashMap.get
  among-keys [] p h = refl
  among-keys ((q, v) ∷ m) p h = ground (arith, among-keys m p)

module _ ⦃M : DashMaps⦄ {ClientId : Type 0} ⦃i : Eq ClientId⦄ where
  pub unsubscribe_one-IsConsistent :
      (id : ClientId) (s : String) (client : ClientState) (reg : ClientRegistry ClientId)
      → M.get id reg.clients ≡ some client
      → IsConsistent reg
      → IsConsistent (unsubscribe_one id s reg)
  unfolding unsubscribe_one
  unsubscribe_one-IsConsistent id s client reg k h = elim (Bool-cases (is_wildcard_pattern s)) [
    | inl w ↦
        rw (w, unsubscribe_one)
          (record {
            all = λ c p. all_after c p;
            exact = λ c p. ground (arith, h.exact c p, sub c p, eq_iff s p);
            patterns = λ c p. ground (
              arith,
              h.patterns c p,
              sub c p,
              eq_iff s p,
              drop-patterns id c s p reg.wildcard_patterns,
            );
            distinct = drop_from_patterns-Distinct id s reg.wildcard_patterns h.distinct;
          })
    | inr w ↦
        rw (w, unsubscribe_one)
          (record {
            all = λ c p. all_after c p;
            exact = λ c p. ground (
              arith,
              h.exact c p,
              sub c p,
              eq_iff s p,
              drop-index id c s p reg.exact_subscriptions,
            );
            patterns = λ c p. ground (arith, h.patterns c p, sub c p, eq_iff s p);
            distinct = h.distinct;
          })
  ]
    where
      sub :
          (c : ClientId) (p : String)
          → holds p (M.get c (change_client id (M.remove s) reg.clients))
            ≡ (not (str_eq s p && i.beq id c) && subscribed c p reg)
      sub c p = subscribed-unsubscribe id c s p client reg.clients k

      all_after :
          (c : ClientId) (p : String)
          → has_in c (M.get p (drop_from id s reg.subscriptions))
            ≡ holds p (M.get c (change_client id (M.remove s) reg.clients))
      all_after c p =
          drop-index id c s p reg.subscriptions
          ∙ ap (λ b. not (str_eq s p && i.beq id c) && b) (h.all c p)
          ∙ sym (sub c p)

  -- The indexes while `unregister` works through the subjects of the client `id`: those of the
  -- other clients are right, and those of `id` can only be stale, under a subject still to come.
  record IsLeaving (id : ClientId) (left : String → Bool) (reg : ClientRegistry ClientId)
      : Type 0 where
    gone : (p : String) → subscribed id p reg ≡ false
    others :
        (c : ClientId) (p : String)
        → i.beq id c ≡ false
        → (in_all c p reg ≡ subscribed c p reg)
          × (in_exact c p reg ≡ (not (is_wildcard_pattern p) && subscribed c p reg))
          × (in_patterns c p reg ≡ (is_wildcard_pattern p && subscribed c p reg))
    stale :
        (p : String)
        → left p ≡ false
        → (in_all id p reg ≡ false) × (in_exact id p reg ≡ false) × (in_patterns id p reg ≡ false)
    exact_only : (p : String) → is_wildcard_pattern p ≡ true → in_exact id p reg ≡ false
    patterns_only : (p : String) → is_wildcard_pattern p ≡ false → in_patterns id p reg ≡ false
    distinct : Distinct reg.wildcard_patterns

  unregister_one-IsLeaving :
      (id : ClientId) (s : String) (subjects : List String) (reg : ClientRegistry ClientId)
      → IsLeaving id (among (s ∷ subjects)) reg
      → IsLeaving id (among subjects) (unregister_one id s reg)
  unfolding unregister_one
  unregister_one-IsLeaving id s subjects reg h = elim (Bool-cases (is_wildcard_pattern s)) [
    | inl w ↦
        rw (w, unregister_one)
          (record {
            gone = h.gone;
            others = λ c p ne.
                let o = h.others c p ne in
                (
                  ground (arith, drop-index id c s p reg.subscriptions),
                  o.1,
                  ground (arith, drop-all id c p reg.wildcard_patterns),
                );
            stale = λ p l. (
              ground (arith, drop-index id id s p reg.subscriptions, h.stale p, i.beq_iff id id),
              ground (arith, h.stale p, h.exact_only p, eq_iff s p),
              ground (arith, drop-all id id p reg.wildcard_patterns, i.beq_iff id id),
            );
            exact_only = h.exact_only;
            patterns_only =
                λ p n. ground (arith, drop-all id id p reg.wildcard_patterns, i.beq_iff id id);
            distinct = drop_from_all-Distinct id reg.wildcard_patterns h.distinct;
          })
    | inr w ↦
        rw (w, unregister_one)
          (record {
            gone = h.gone;
            others = λ c p ne.
                let o = h.others c p ne in
                (
                  ground (arith, drop-index id c s p reg.subscriptions),
                  ground (arith, drop-index id c s p reg.exact_subscriptions),
                  o.2,
                );
            stale = λ p l. (
              ground (arith, drop-index id id s p reg.subscriptions, h.stale p, i.beq_iff id id),
              ground
                  (arith, drop-index id id s p reg.exact_subscriptions, h.stale p, i.beq_iff id id),
              ground (arith, h.stale p, h.patterns_only p, eq_iff s p),
            );
            exact_only =
                λ p n. ground (arith, drop-index id id s p reg.exact_subscriptions, h.exact_only p);
            patterns_only = h.patterns_only;
            distinct = h.distinct;
          })
  ]

  unregister_all :
      (id : ClientId) (subjects : List String) (reg : ClientRegistry ClientId)
      → IsLeaving id (among subjects) reg
      → IsLeaving id (λ p. false) (for_each (unregister_one id) subjects reg)
  unfolding for_each
  unregister_all id [] reg h = h
  unregister_all id (s ∷ subjects) reg h =
      unregister_all id subjects _ (unregister_one-IsLeaving id s subjects reg h)

  -- A client that is taken off the table starts to leave.
  starts-IsLeaving :
      (id : ClientId) (client : ClientState) (reg : ClientRegistry ClientId)
      → M.get id reg.clients ≡ some client
      → IsConsistent reg
      → IsLeaving id
          (among (HashMap.keys (M.iter client.subscriptions)))
          (record reg { clients = M.remove id reg.clients })
  starts-IsLeaving id client reg k h = record {
    gone = λ p. rw (M.get-remove id id reg.clients, (i.beq_iff id id).1 refl);
    others =
        λ c p ne. rw (M.get-remove id c reg.clients, ne) (h.all c p, h.exact c p, h.patterns c p);
    stale = λ p l.
        let none_held = unheld p l in
        (
          h.all id p ∙ none_held,
          ground (arith, h.exact id p, none_held),
          ground (arith, h.patterns id p, none_held),
        );
    exact_only = λ p w. ground (arith, h.exact id p);
    patterns_only = λ p w. ground (arith, h.patterns id p);
    distinct = h.distinct;
  }
    where
      unheld :
          (p : String)
          → among (HashMap.keys (M.iter client.subscriptions)) p ≡ false
          → subscribed id p reg ≡ false
      unheld p l = rw k (
          rw (
            sym (M.get-iter p client.subscriptions) ∙ among-keys (M.iter client.subscriptions) p l,
            has,
          ))

  has_left :
      (id : ClientId) (reg : ClientRegistry ClientId)
      → IsLeaving id (λ p. false) reg
      → IsConsistent reg
  has_left id reg h = record {
    all = λ c p. elim (Bool-cases (i.beq id c)) [
      | inl e ↦ rw (← (i.beq_iff id c).0 e) ((h.stale p refl).0 ∙ sym (h.gone p))
      | inr e ↦ (h.others c p e).0
    ];
    exact = λ c p. elim (Bool-cases (i.beq id c)) [
      | inl e ↦ rw (← (i.beq_iff id c).0 e) ((h.stale p refl).1 ∙ ground (arith, h.gone p))
      | inr e ↦ (h.others c p e).1
    ];
    patterns = λ c p. elim (Bool-cases (i.beq id c)) [
      | inl e ↦ rw (← (i.beq_iff id c).0 e) ((h.stale p refl).2 ∙ ground (arith, h.gone p))
      | inr e ↦ (h.others c p e).2
    ];
    distinct = h.distinct;
  }

  pub unregister-IsConsistent :
      (id : ClientId) (reg : ClientRegistry ClientId)
      → IsConsistent reg
      → IsConsistent (unregister id reg)
  unfolding unregister
  unregister-IsConsistent id reg h = elim (Option-cases (M.get id reg.clients)) [
    | inl k ↦ rw (k, unregister) h
    | inr (client, k) ↦
        rw (k, unregister)
          (has_left id _ (unregister_all id _ _ (starts-IsLeaving id client reg k h)))
  ]
