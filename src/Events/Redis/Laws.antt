-- ===== src/Events/Redis/Laws.antt =====
-- What is stored in Redis is found again.
use Prim.Native.Char.{code}
use Prim.Native.String.{◌++◌}
use text.Mathlib.TextLemmas.{nil-append, cons-append, append_assoc}
use wup_demo.Prelude.{
  some_injective, contains, eq_refl, String, str_eq, eq_iff, Bool, true, Option, none, some, List,
  [], ◌∷◌, map, find, ◌≡◌, ◌⊎◌, refl, ◌∙◌, sym, ap, arith, ==_iff, Option-cases, inl, inr,
}
use wup_demo.Events.{MarketData, EventData, TokenMapping}
use wup_demo.Events.Redis.{
  Redis, Stored, Answer, strip_prefix, event_key, store_value, get_value, store_event, get_event,
  slug_of, event_at, search_keys, search_event, market_by_token_id, find_market_by_token_id,
  event_keys, without_prefix, set_json, read_json, decoded,
}

strip_prefix-append : (p s : String) → strip_prefix p (p ++ s) ≡ some s
unfolding strip_prefix
strip_prefix-append String.[] s = ap some (nil-append s)
strip_prefix-append (String.◌∷◌ c p) s =
    ap (strip_prefix (String.◌∷◌ c p)) (cons-append c p s)
    ∙ rw ((==_iff (code c) (code c)).1 refl) (strip_prefix-append p s)

event_key-append :
    (platform slug : String) → event_key platform slug ≡ event_key platform "" ++ slug
event_key-append platform slug = sym (
    append_assoc "event:" (platform ++ ":") slug
    ∙ ap ("event:" ++◌) (append_assoc platform ":" slug))

slug_of-event_key : (platform slug : String) → slug_of platform (event_key platform slug) ≡ slug
unfolding slug_of
slug_of-event_key platform slug =
    ap (λ k. without_prefix "" (strip_prefix (event_key platform "") k))
      (event_key-append platform slug)
    ∙ ap (without_prefix "") (strip_prefix-append (event_key platform "") slug)

find-true : {A : Type 0} (p : A → Bool) (xs : List A) (x : A) → find p xs ≡ some x → p x ≡ true
find-true p [] x h = absurd (cc h)
find-true p (y ∷ ys) x h = ground (arith, find-true p ys x)

abbrev without_best : MarketData → MarketData
without_best m = record m { best_bid = none; best_ask = none }

-- An event but for the best bids and asks of its markets.
abbrev pub without_prices : EventData → EventData
without_prices e = record e { markets = map without_best e.markets }

-- What is written is read back, but for the numbers of type f64, which `serde_json` reads to within
-- the last place only.
abbrev pub ReadsBack : Stored EventData → Type 0
ReadsBack J =
    (e : EventData) (s : String)
    → J.to_string e ≡ some s
    → (read : EventData) × (J.from_str s ≡ some read) × (without_prices read ≡ without_prices e)

module _ ⦃R : Redis⦄ where
  -- An event, once stored, is what is read under its platform and slug, but for the best bids and
  -- asks of its markets, unless the reading fails.
  pub get_event-store_event :
      ⦃J : Stored EventData⦄ (platform slug : String) (event : EventData) (store after : R.Store)
      → ReadsBack J
      → store_event platform slug event store ≡ some after
      → ((read : EventData) × (get_event platform slug after ≡ Answer.found (some read))
          × (without_prices read ≡ without_prices event))
        ⊎ (get_event platform slug after ≡ Answer.failed)
  unfolding store_event get_event store_value get_value
  get_event-store_event ⦃J⦄ platform slug event store after reads_back stored =
      elim (Option-cases (J.to_string event)) [
        | inl e ↦ absurd (cc (sym stored ∙ ap (λ o. set_json (event_key platform slug) o store) e))
        | inr (json, e) ↦ elim (Option-cases (R.get (event_key platform slug) after)) [
          | inl g ↦ inr (rw g)
          | inr (answer, g) ↦
              let set = sym (ap (λ o. set_json (event_key platform slug) o store) e) ∙ stored in
              let there = R.get-set (event_key platform slug) json store after set answer g in
              let (read, back, same) = reads_back event json e in
              inl (read, ap read_json (g ∙ ap some there) ∙ ap decoded back, same)
        ]
      ]

  module _ ⦃J : Stored EventData⦄ (search : EventData → Option MarketData) where
    search_event-some :
        (o : Option EventData) (market : MarketData)
        → search_event search o ≡ some market
        → (event : EventData) × (o ≡ some event) × (search event ≡ some market)
    search_event-some none market h = absurd (cc h)
    search_event-some (some event) market h = (event, refl, h)

    search_keys-some :
        (platform slug : String) (market : MarketData) (store : R.Store) (keys : List String)
        → search_keys search platform store keys ≡ some (slug, market)
        → (key : String) × (event : EventData) × (contains keys key ≡ true)
          × (event_at key store ≡ some event)
          × (search event ≡ some market)
          × (slug_of platform key ≡ slug)
    unfolding search_keys
    search_keys-some platform slug market store [] h = absurd (cc h)
    search_keys-some platform slug market store (key ∷ keys) h =
        elim (Option-cases (search_event search (event_at key store))) [
          | inl e ↦
              let skipped : search_keys search platform store (key ∷ keys)
                  ≡ search_keys search platform store keys =
                rw (search_keys, e) in
              let (k, event, listed, there, searched, named) =
                search_keys-some platform slug market store keys (sym skipped ∙ h) in
              (k, event, ground (arith, listed), there, searched, named)
          | inr (m, e) ↦
              let met : search_keys search platform store (key ∷ keys)
                  ≡ some (slug_of platform key, m) =
                rw (search_keys, e) in
              let both : (slug_of platform key, m) ≡ (slug, market) =
                some_injective (sym met ∙ h) in
              let (event, there, searched) = search_event-some (event_at key store) m e in
              (
                key,
                event,
                ground (arith, eq_refl key),
                there,
                searched ∙ ap some (ap (λ p. p.1) both),
                ap (λ p. p.0) both,
              )
        ]

  mapping-some :
      (token_id : String) (event : EventData) (market : MarketData)
      → market_by_token_id token_id event ≡ some market
      → (mapping : TokenMapping) × (find
            (λ (t : TokenMapping). str_eq t.clob_token_id token_id)
            event.tokens
          ≡ some mapping)
        × (mapping.clob_token_id ≡ token_id)
        × (find (λ (m : MarketData). str_eq m.id mapping.market_id) event.markets ≡ some market)
        × (market.id ≡ mapping.market_id)
  unfolding market_by_token_id
  mapping-some token_id event market h =
      let test : TokenMapping → Bool = λ t. str_eq t.clob_token_id token_id in
      elim (Option-cases (find test event.tokens)) [
        | inl e ↦
            let missed : market_by_token_id token_id event ≡ none = rw (market_by_token_id, e) in
            absurd (cc (sym h ∙ missed))
        | inr (mapping, e) ↦
            let is_market : MarketData → Bool = λ m. str_eq m.id mapping.market_id in
            let met : market_by_token_id token_id event ≡ find is_market event.markets =
              rw (market_by_token_id, e) in
            let listed : find is_market event.markets ≡ some market = sym met ∙ h in
            (
              mapping,
              e,
              (eq_iff _ _).0 (find-true test event.tokens mapping e),
              listed,
              (eq_iff _ _).0 (find-true is_market event.markets market listed),
            )
      ]

  -- A market that is found by a token was read from the event stored under the slug that comes with
  -- it: the event maps the token to the identifier of that market, which is the first of its markets
  -- with this identifier. Redis must answer for a
  -- platform's pattern with the keys of that platform only.
  pub find_market_by_token_id-some :
      ⦃J : Stored EventData⦄ (platform token_id slug : String) (market : MarketData)
      (store : R.Store)
      → ((key : String)
          → contains (event_keys platform store) key ≡ true
          → (s : String) × (key ≡ event_key platform s))
      → find_market_by_token_id platform token_id store ≡ some (slug, market)
      → (event : EventData) × (mapping : TokenMapping) × (event_at (event_key platform slug) store
          ≡ some event)
        × (find (λ (t : TokenMapping). str_eq t.clob_token_id token_id) event.tokens ≡ some mapping)
        × (mapping.clob_token_id ≡ token_id)
        × (find (λ (m : MarketData). str_eq m.id mapping.market_id) event.markets ≡ some market)
        × (market.id ≡ mapping.market_id)
  unfolding find_market_by_token_id
  find_market_by_token_id-some platform token_id slug market store only found =
      let (key, event, listed, there, searched, named) =
        search_keys-some (market_by_token_id token_id) platform slug market store
          (event_keys platform store) found in
      let (s, own) = only key listed in
      let slug_is : s ≡ slug =
        sym (slug_of-event_key platform s) ∙ ap (slug_of platform) (sym own) ∙ named in
      let (mapping, mapped, is_token, in_event, is_market) =
        mapping-some token_id event market searched in
      (
        event,
        mapping,
        ap (λ k. event_at k store) (sym (own ∙ ap (event_key platform) slug_is)) ∙ there,
        mapped,
        is_token,
        in_event,
        is_market,
      )
