-- ===== src/Registry/Stale.antt =====
-- `cleanup_stale_clients` of crates/gateway/src/client.rs: who is left after it.
use wup_demo.Prelude.{
  ℕ, suc, ◌+◌, ◌-◌, pos, negsuc, ◌⊎◌, subst, ℤ, ltb_ℤ, ◌-ℤ◌, Eq, String, string_eq, Bool, true,
  false, Option, none, some, List, [], ◌∷◌, ◌≡◌, refl, ◌∙◌, sym, ap, arith, Bool-cases,
  Option-cases, inl, inr, if◌then◌else◌,
}
use wup_demo.DashMap.{DashMaps}
use wup_demo.HashMap
use wup_demo.HashMap.{HashMap, Distinct}
use wup_demo.Registry.{
  ClientState, ClientRegistry, is_wildcard_pattern, unregister_one, unregister, for_each,
}

module _ ⦃M : DashMaps⦄ where
  -- `now - client.last_ping_time() > max_idle_ms`
  abbrev pub is_stale : ℤ → ℤ → ClientState → Bool
  is_stale now max_idle_ms client = ltb_ℤ max_idle_ms (now -ℤ client.last_ping)

  abbrev pub if_fresh : ℤ → ℤ → Option ClientState → Option ClientState
  if_fresh now max_idle_ms none = none
  if_fresh now max_idle_ms (some client) =
      if is_stale now max_idle_ms client then none else some client

  -- The difference of the two, where it is a natural number.
  abbrev pub Within : ℤ → ℤ → Type 0
  Within x y = (k : ℕ) × (y -ℤ x ≡ pos k)

  -- What the cleanup makes of what is registered for an identifier.
  abbrev pub Cleaned : ℤ → ℤ → Option ClientState → Option ClientState → Type 0
  Cleaned now max_idle_ms none after = after ≡ none
  Cleaned now max_idle_ms (some client) after =
      (((k : ℕ) × ((now -ℤ client.last_ping) -ℤ max_idle_ms ≡ pos (suc k))) × (after ≡ none))
      ⊎ (Within (now -ℤ client.last_ping) max_idle_ms × (after ≡ some client))

  exceeds : (x y : ℤ) → ltb_ℤ x y ≡ true → (k : ℕ) × (y -ℤ x ≡ pos (suc k))
  exceeds (pos m) (pos n) h = (n - m - 1, ground (arith, h))
  exceeds (pos m) (negsuc n) h = absurd (cc h)
  exceeds (negsuc m) (pos n) h = (n + m, ap pos (omega arith))
  exceeds (negsuc m) (negsuc n) h = (m - n - 1, ground (arith, h))

  not_exceeds : (x y : ℤ) → ltb_ℤ x y ≡ false → Within y x
  not_exceeds (pos m) (pos n) h = (m - n, ground (arith, h))
  not_exceeds (pos m) (negsuc n) h = (m + n + 1, refl)
  not_exceeds (negsuc m) (pos n) h = absurd (cc h)
  not_exceeds (negsuc m) (negsuc n) h = (n - m, ground (arith, h))

  kept_or_gone :
      (now max_idle_ms : ℤ) (before : Option ClientState)
      → Cleaned now max_idle_ms before (if_fresh now max_idle_ms before)
  kept_or_gone now max_idle_ms none = refl
  kept_or_gone now max_idle_ms (some client) = elim (Bool-cases (is_stale now max_idle_ms client)) [
    | inl h ↦ inl (exceeds max_idle_ms (now -ℤ client.last_ping) h, rw h refl)
    | inr h ↦ inr (not_exceeds max_idle_ms (now -ℤ client.last_ping) h, rw h refl)
  ]

  abbrev stale_in : ℤ → ℤ → Option ClientState → Bool
  stale_in now max_idle_ms none = false
  stale_in now max_idle_ms (some client) = is_stale now max_idle_ms client

module _ ⦃M : DashMaps⦄ {ClientId : Type 0} ⦃i : Eq ClientId⦄ where
  -- The loop that gathers the identifiers.
  unfoldable pub stale_ids : ℤ → ℤ → List (ClientId × ClientState) → List ClientId
  stale_ids now max_idle_ms [] = []
  stale_ids now max_idle_ms ((id, client) ∷ entries) =
      let rest = stale_ids now max_idle_ms entries in
      if is_stale now max_idle_ms client then id ∷ rest else rest

  unfoldable pub unregister_all : List ClientId → ClientRegistry ClientId → ClientRegistry ClientId
  unregister_all [] reg = reg
  unregister_all (id ∷ ids) reg = unregister_all ids (unregister id reg)

  unfoldable pub cleanup_stale_clients : ℤ → ℤ → ClientRegistry ClientId → ClientRegistry ClientId
  cleanup_stale_clients now max_idle_ms reg =
      unregister_all (stale_ids now max_idle_ms (M.iter reg.clients)) reg

  clients-unregister_one :
      (id : ClientId) (s : String) (reg : ClientRegistry ClientId)
      → (unregister_one id s reg).clients ≡ reg.clients
  unfolding unregister_one
  clients-unregister_one id s reg = elim (Bool-cases (is_wildcard_pattern s)) [
    | inl w ↦ rw w
    | inr w ↦ rw w
  ]

  clients-for_each :
      (id : ClientId) (ss : List String) (reg : ClientRegistry ClientId)
      → (for_each (unregister_one id) ss reg).clients ≡ reg.clients
  unfolding for_each
  clients-for_each id [] reg = refl
  clients-for_each id (s ∷ ss) reg =
      clients-for_each id ss (unregister_one id s reg) ∙ clients-unregister_one id s reg

  get-unregister :
      (id c : ClientId) (reg : ClientRegistry ClientId)
      → M.get c (unregister id reg).clients ≡ (if i.beq id c then none else M.get c reg.clients)
  unfolding unregister
  get-unregister id c reg = elim (Option-cases (M.get id reg.clients)) [
    | inl e ↦
        rw (e, unregister)
          (elim (Bool-cases (i.beq id c)) [
            | inl s ↦ rw s (ap (λ k. M.get k reg.clients) (sym ((i.beq_iff id c).0 s)) ∙ e)
            | inr s ↦ rw s
          ])
    | inr (client, e) ↦
        rw (e, unregister)
          (ap (M.get c) (clients-for_each id (HashMap.keys (M.iter client.subscriptions)) _)
            ∙ M.get-remove id c reg.clients)
  ]

  -- Does the identifier stand in the list?
  abbrev among : ClientId → List ClientId → Bool
  among c [] = false
  among c (id ∷ ids) = let rest = among c ids in if i.beq id c then true else rest

  get-unregister_all :
      (c : ClientId) (ids : List ClientId) (reg : ClientRegistry ClientId)
      → M.get c (unregister_all ids reg).clients
        ≡ (if among c ids then none else M.get c reg.clients)
  unfolding unregister_all
  get-unregister_all c [] reg = refl
  get-unregister_all c (id ∷ ids) reg =
      get-unregister_all c ids (unregister id reg) ∙ rw (get-unregister id c reg) (ground arith)

  among-stale_ids :
      (now max_idle_ms : ℤ) (c : ClientId) (entries : HashMap ClientId ClientState)
      → Distinct entries
      → among c (stale_ids now max_idle_ms entries)
        ≡ stale_in now max_idle_ms (HashMap.get c entries)
  unfolding stale_ids HashMap.get
  among-stale_ids now max_idle_ms c [] d = refl
  among-stale_ids now max_idle_ms c ((id, client) ∷ entries) d =
      let rest = among-stale_ids now max_idle_ms c entries d.1 in
      elim (Bool-cases (i.beq id c)) [
        | inl s ↦
            let away : HashMap.get c entries ≡ none =
              ap (λ k. HashMap.get k entries) (sym ((i.beq_iff id c).0 s)) ∙ d.0 in
            elim (Bool-cases (is_stale now max_idle_ms client)) [
              | inl h ↦ rw (s, h) (rw s)
              | inr h ↦ rw (s, h) (rest ∙ rw away)
            ]
        | inr s ↦ elim (Bool-cases (is_stale now max_idle_ms client)) [
          | inl h ↦ rw (s, h) (rw s rest)
          | inr h ↦ rw (s, h) rest
        ]
      ]

  -- After the cleanup, a client is registered with the state it had if its last ping is not longer
  -- ago than the limit, and is not registered if it is, by a millisecond or more.
  pub get-cleanup_stale_clients :
      (now max_idle_ms : ℤ) (c : ClientId) (reg : ClientRegistry ClientId)
      → Cleaned now max_idle_ms
          (M.get c reg.clients)
          (M.get c (cleanup_stale_clients now max_idle_ms reg).clients)
  unfolding cleanup_stale_clients
  get-cleanup_stale_clients now max_idle_ms c reg =
      subst (Cleaned now max_idle_ms (M.get c reg.clients))
        (sym (
          get-unregister_all c (stale_ids now max_idle_ms (M.iter reg.clients)) reg
          ∙ rw
              (
                among-stale_ids now max_idle_ms c (M.iter reg.clients)
                    (M.iter-Distinct reg.clients),
                M.get-iter c reg.clients,
              )
              (elim (Option-cases (M.get c reg.clients)) [
                | inl e ↦ rw e
                | inr (client, e) ↦ rw e
              ])))
        (kept_or_gone now max_idle_ms (M.get c reg.clients))
