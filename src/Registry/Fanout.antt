-- ===== src/Registry/Fanout.antt =====
-- The subscribers that a subject is sent to, in terms of the clients' own subscriptions.
use wup_demo.Prelude.{
  Eq, String, string_eq, str_eq, eq_iff, Bool, true, false, ◌&&◌, ◌||◌, not, Option, none, some,
  List, [], ◌∷◌, ◌≡◌, ◌↔◌, ◌⊎◌, refl, ◌∙◌, sym, ap, arith, Bool-cases, Option-cases, inl, inr,
}
use wup_demo.DashMap.{DashMaps, DashSet}
use wup_demo.HashMap
use wup_demo.HashMap.{HashMap, Distinct}
use wup_demo.Text.{split}
use wup_demo.Subscription.{matches_subject}
use wup_demo.Subscription.Matching.{matches_literal}
use wup_demo.Registry.{ClientRegistry, ClientState, is_wildcard_pattern}
use wup_demo.Registry.Routing.{
  has_id, insert_id, insert_ids, ids_in, scan_patterns, matched_clients, states_of,
  get_matching_subscribers,
}
use wup_demo.Registry.Index.{has, has_in}
use wup_demo.Registry.Consistency.{holds, subscribed, in_exact, IsConsistent}

abbrev present : {V : Type 0} → Option V → Bool
present none = false
present (some v) = true

module _ {K : Type 0} ⦃e : Eq K⦄ where
  has_id-insert_id :
      (c k : K) (ids : List K) → has_id c (insert_id k ids) ≡ (e.beq k c || has_id c ids)
  has_id-insert_id c k ids = elim (Bool-cases (has_id k ids)) [
    | inl h ↦ rw h (elim (Bool-cases (e.beq k c)) [
      | inl s ↦ rw s (ap (λ j. has_id j ids) (sym ((e.beq_iff k c).0 s)) ∙ h)
      | inr s ↦ rw s
    ])
    | inr h ↦ rw h (ground arith)
  ]

  has_id-insert_ids :
      (c : K) (more ids : List K) → has_id c (insert_ids more ids) ≡ (has_id c more || has_id c ids)
  has_id-insert_ids c [] ids = refl
  has_id-insert_ids c (k ∷ more) ids =
      has_id-insert_ids c more (insert_id k ids) ∙ rw (has_id-insert_id c k ids) (ground arith)

  has_id-keys :
      {V : Type 0} (c : K) (m : HashMap K V) → has_id c (HashMap.keys m) ≡ present (HashMap.get c m)
  unfolding HashMap.get
  has_id-keys c [] = refl
  has_id-keys c ((k, v) ∷ m) = ground (arith, has_id-keys c m)

literal_pattern :
    (p subject : String)
    → is_wildcard_pattern p ≡ false
    → (matches_subject p (split subject) ≡ true) ↔ (p ≡ subject)
unfolding is_wildcard_pattern
literal_pattern p subject h = matches_literal p subject (ground arith) (ground arith)

module _ ⦃M : DashMaps⦄ where
  held-present : (p : String) (o : Option ClientState) → holds p o ≡ true → present o ≡ true
  held-present p none h = absurd (cc h)
  held-present p (some client) h = refl

module _ ⦃M : DashMaps⦄ {ClientId : Type 0} ⦃i : Eq ClientId⦄ where
  has_id-set :
      (c : ClientId) (set : DashSet ClientId) → has_id c (HashMap.keys (M.iter set)) ≡ has c set
  has_id-set c set = has_id-keys c (M.iter set) ∙ rw (M.get-iter c set)

  has_id-ids_in : (c : ClientId) (o : Option (DashSet ClientId)) → has_id c (ids_in o) ≡ has_in c o
  has_id-ids_in c none = refl
  has_id-ids_in c (some set) = has_id-set c set

  -- The scan gathers the clients of the patterns that match, on top of those it starts with.
  scanned_before :
      (c : ClientId) (parts : List String) (ps : HashMap String (DashSet ClientId))
      (ids : List ClientId)
      → has_id c ids ≡ true
      → has_id c (scan_patterns parts ps ids) ≡ true
  unfolding scan_patterns
  scanned_before c parts [] ids h = h
  scanned_before c parts ((p, set) ∷ ps) ids h = elim (Bool-cases (matches_subject p parts)) [
    | inl m ↦ rw m (
        scanned_before c parts ps _
          (has_id-insert_ids c (HashMap.keys (M.iter set)) ids ∙ rw h (ground arith)))
    | inr m ↦ rw m (scanned_before c parts ps ids h)
  ]

  scanned :
      (c : ClientId) (parts : List String) (p : String) (ps : HashMap String (DashSet ClientId))
      (ids : List ClientId)
      → has_in c (HashMap.get p ps) ≡ true
      → matches_subject p parts ≡ true
      → has_id c (scan_patterns parts ps ids) ≡ true
  unfolding scan_patterns HashMap.get
  scanned c parts p [] ids h m = absurd (cc h)
  scanned c parts p ((q, set) ∷ ps) ids h m = elim (Bool-cases (str_eq q p)) [
    | inl s ↦
        let k : matches_subject q parts ≡ true =
          ap (λ r. matches_subject r parts) ((eq_iff q p).0 s) ∙ m in
        let here : has c set ≡ true = ground arith in
        rw k (
          scanned_before c parts ps _
            (has_id-insert_ids c (HashMap.keys (M.iter set)) ids ∙ rw (has_id-set c set ∙ here)))
    | inr s ↦ scanned c parts p ps _ (ground arith) m
  ]

  -- Nobody else is gathered.
  Source : ClientId → List String → HashMap String (DashSet ClientId) → Type 0
  Source c parts ps =
      (p : String) × ((has_in c (HashMap.get p ps) ≡ true) × (matches_subject p parts ≡ true))

  only_scanned :
      (c : ClientId) (parts : List String) (ps : HashMap String (DashSet ClientId))
      (ids : List ClientId)
      → Distinct ps
      → has_id c (scan_patterns parts ps ids) ≡ true
      → (has_id c ids ≡ true) ⊎ Source c parts ps
  unfolding scan_patterns HashMap.get Source
  only_scanned c parts [] ids d h = inl h
  only_scanned c parts ((q, set) ∷ ps) ids d h = elim (Bool-cases (matches_subject q parts)) [
    | inl m ↦ elim (only_scanned c parts ps _ d.1 h) [
      | inl before ↦
          let e : (has c set || has_id c ids) ≡ true =
            sym (has_id-insert_ids c (HashMap.keys (M.iter set)) ids ∙ rw (has_id-set c set))
            ∙ ground arith in
          elim (Bool-cases (has c set)) [
            | inl here ↦ inr (q, (ground (arith, eq_iff q q), m))
            | inr out ↦ inl (ground arith)
          ]
      | inr later ↦ inr (after later)
    ]
    | inr m ↦ elim (only_scanned c parts ps ids d.1 (ground arith)) [
      | inl before ↦ inl before
      | inr later ↦ inr (after later)
    ]
  ]
    where
      after : Source c parts ps → Source c parts ((q, set) ∷ ps)
      after (p, (has_it, m)) = (
        p,
        (
          elim (Bool-cases (str_eq q p)) [
            | inl s ↦
                absurd (ground (arith, eq_iff q p, ap (λ r. HashMap.get r ps) ((eq_iff q p).0 s)))
            | inr s ↦ ground arith
          ],
          m,
        ),
      )

  -- The identifiers that are collected are those of the clients that hold a matching subscription.
  pub matched_clients_iff :
      (reg : ClientRegistry ClientId) (subject : String) (c : ClientId)
      → IsConsistent reg
      → (has_id c (matched_clients subject reg) ≡ true) ↔ (
          (p : String) × ((subscribed c p reg ≡ true) × (matches_subject p (split subject) ≡ true)))
  unfolding matched_clients Source
  matched_clients_iff reg subject c h = (λ k. only k, λ q. all q)
    where
      ids : List ClientId
      ids = insert_ids (ids_in (M.get subject reg.exact_subscriptions)) []

      first_phase : has_id c ids ≡ in_exact c subject reg
      first_phase =
          has_id-insert_ids c (ids_in (M.get subject reg.exact_subscriptions)) []
          ∙ rw (has_id-ids_in c (M.get subject reg.exact_subscriptions)) (ground arith)

      only :
          has_id c (matched_clients subject reg) ≡ true
          → (p : String) × ((subscribed c p reg ≡ true)
              × (matches_subject p (split subject) ≡ true))
      only k = elim (only_scanned c (split subject) reg.wildcard_patterns ids h.distinct k) [
        | inl by_name ↦
            let e : (not (is_wildcard_pattern subject) && subscribed c subject reg) ≡ true =
              sym (h.exact c subject) ∙ sym first_phase ∙ by_name in
            (subject, (ground arith, (literal_pattern subject subject (ground arith)).1 refl))
        | inr (p, (has_it, m)) ↦ (p, (ground (arith, h.patterns c p), m))
      ]

      all :
          (p : String) × ((subscribed c p reg ≡ true) × (matches_subject p (split subject) ≡ true))
          → has_id c (matched_clients subject reg) ≡ true
      all (p, (held, m)) = elim (Bool-cases (is_wildcard_pattern p)) [
        | inl w ↦
            scanned c (split subject) p reg.wildcard_patterns ids (ground (arith, h.patterns c p)) m
        | inr w ↦
            let same : p ≡ subject = (literal_pattern p subject w).0 m in
            scanned_before c (split subject) reg.wildcard_patterns ids
              (first_phase ∙ ap (λ q. in_exact c q reg) (sym same) ∙ ground (arith, h.exact c p))
      ]

  has_id-states_of :
      (c : ClientId) (ids : List ClientId) (reg : ClientRegistry ClientId)
      → has_id c (HashMap.keys (states_of ids reg))
        ≡ (has_id c ids && present (M.get c reg.clients))
  has_id-states_of c [] reg = refl
  has_id-states_of c (id ∷ ids) reg = elim (Bool-cases (i.beq id c)) [
    | inl s ↦
        let there = ap (λ j. M.get j reg.clients) ((i.beq_iff id c).0 s) in
        elim (Option-cases (M.get id reg.clients)) [
          | inl e ↦
              rw (e, states_of, s) (has_id-states_of c ids reg ∙ rw (sym there ∙ e) (ground arith))
          | inr (client, e) ↦ rw (e, states_of, s) (rw (sym there ∙ e))
        ]
    | inr s ↦ elim (Option-cases (M.get id reg.clients)) [
      | inl e ↦ rw (e, states_of, s) (has_id-states_of c ids reg)
      | inr (client, e) ↦ rw (e, states_of, s) (has_id-states_of c ids reg)
    ]
  ]

  -- While the indexes agree with the clients' subscriptions, a message on a subject is for exactly
  -- the registered clients that hold a subscription which matches it, by wildcard or word for word.
  pub matching_subscribers_iff :
      (reg : ClientRegistry ClientId) (subject : String) (c : ClientId)
      → IsConsistent reg
      → (has_id c (HashMap.keys (get_matching_subscribers subject reg)) ≡ true) ↔ (
          (p : String) × ((subscribed c p reg ≡ true) × (matches_subject p (split subject) ≡ true)))
  unfolding get_matching_subscribers
  matching_subscribers_iff reg subject c h =
      let e = has_id-states_of c (matched_clients subject reg) reg in
      let matched = matched_clients_iff reg subject c h in
      (
        λ k. matched.0 (ground (arith, e)),
        λ q. ground (arith, e, matched.1 q, held-present q.0 (M.get c reg.clients) q.1.0),
      )
