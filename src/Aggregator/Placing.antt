-- ===== src/Aggregator/Placing.antt =====
-- The loops that place identifiers: none is lost on the way, and they end.
use wup_demo.Prelude.{
  ℕ, zero, suc, ◌+◌, ◌≤◌, String, string_eq, Bool, ◌||◌, none, List, [], ◌∷◌, ◌++◌, map, length,
  take, drop, contains, ◌≡◌, refl, arith, length-append, length-map, length-take, length-drop, inl,
  inr,
}
use wup_demo.HashMap
use wup_demo.HashMap.{HashMap}
use wup_demo.Aggregator.{WorkerHandle, Workers, offer, fill, has_id, sum_ids}
use wup_demo.Aggregator.Offers.{offer-cases}

pub contains-append :
    (x : String) (xs ys : List String) → contains (xs ++ ys) x ≡ (contains xs x || contains ys x)
contains-append x [] ys = refl
contains-append x (y ∷ xs) ys = ground (arith, contains-append x xs ys)

module _ {A : Type 0} (id_of : A → String) (x : String) where
  -- Some item has the identifier.
  abbrev pub names : List A → Bool
  names items = contains (map id_of items) x

  names-append : (xs ys : List A) → names (xs ++ ys) ≡ (names xs || names ys)
  names-append [] ys = refl
  names-append (y ∷ xs) ys = ground (arith, names-append xs ys)

  pub names-take-drop :
      (n : ℕ) (items : List A) → (names (take n items) || names (drop n items)) ≡ names items
  names-take-drop zero items = refl
  names-take-drop (suc n) [] = refl
  names-take-drop (suc n) (y ∷ items) = ground (arith, names-take-drop n items)

  module _ (accepts : String → Bool) (max : ℕ) where
    names-offer :
        (w : String) (h : WorkerHandle) (items : List A)
        → (contains (offer id_of accepts max w h items).handle.subscribed_ids x
            || names (offer id_of accepts max w h items).remaining)
          ≡ (contains h.subscribed_ids x || names items)
    names-offer w h items = elim (offer-cases id_of accepts max w h items) [
      | inl e ↦ rw e
      | inr (inl (n, room, a, e)) ↦
          rw (e, contains-append x h.subscribed_ids (map id_of (take n items)))
            (ground (arith, names-take-drop n items))
      | inr (inr (n, a, e)) ↦
          rw (e, names-append (drop n items) (take n items))
            (ground (arith, names-take-drop n items))
    ]

    pub names-fill :
        (ws : Workers) (items : List A)
        → (has_id x (fill id_of accepts max ws items).workers
            || names (fill id_of accepts max ws items).remaining)
          ≡ (has_id x ws || names items)
    unfolding fill has_id
    names-fill [] items = refl
    names-fill ((w, h) ∷ ws) items =
        let o = offer id_of accepts max w h items in
        ground (arith, names-offer w h items, names-fill ws o.remaining)

module _ {A : Type 0} (id_of : A → String) (accepts : String → Bool) (max : ℕ) where
  length-offer :
      (w : String) (h : WorkerHandle) (items : List A)
      → length (offer id_of accepts max w h items).handle.subscribed_ids
          + length (offer id_of accepts max w h items).remaining
        ≡ length h.subscribed_ids + length items
  length-offer w h items = elim (offer-cases id_of accepts max w h items) [
    | inl e ↦ rw e
    | inr (inl (n, room, a, e)) ↦
        rw
          (
            e,
            length-append h.subscribed_ids (map id_of (take n items)),
            length-map id_of (take n items),
          )
          (omega (arith, length-take n items, length-drop n items))
    | inr (inr (n, a, e)) ↦
        rw (e, length-append (drop n items) (take n items))
          (omega (arith, length-take n items, length-drop n items))
  ]

  pub length-fill :
      (ws : Workers) (items : List A)
      → sum_ids (fill id_of accepts max ws items).workers
          + length (fill id_of accepts max ws items).remaining
        ≡ sum_ids ws + length items
  unfolding fill sum_ids
  length-fill [] items = refl
  length-fill ((w, h) ∷ ws) items =
      let o = offer id_of accepts max w h items in
      omega (arith, length-offer w h items, length-fill ws o.remaining)

  offer_shrinks :
      (w : String) (h : WorkerHandle) (items : List A)
      → length (offer id_of accepts max w h items).remaining ≤ length items
  offer_shrinks w h items = elim (offer-cases id_of accepts max w h items) [
    | inl e ↦ rw e (omega arith)
    | inr (inl (n, room, a, e)) ↦ rw e (omega (arith, length-drop n items))
    | inr (inr (n, a, e)) ↦
        rw (e, length-append (drop n items) (take n items))
          (omega (arith, length-take n items, length-drop n items))
  ]

  pub fill_shrinks :
      (ws : Workers) (items : List A)
      → length (fill id_of accepts max ws items).remaining ≤ length items
  unfolding fill
  fill_shrinks [] items = omega arith
  fill_shrinks ((w, h) ∷ ws) items =
      let o = offer id_of accepts max w h items in
      omega (arith, offer_shrinks w h items, fill_shrinks ws o.remaining)

  pub get-fill :
      (k : String) (ws : Workers) (items : List A)
      → HashMap.get k ws ≡ none
      → HashMap.get k (fill id_of accepts max ws items).workers ≡ none
  unfolding fill HashMap.get
  get-fill k [] items h = refl
  get-fill k ((w, g) ∷ ws) items h =
      let o = offer id_of accepts max w g items in ground (arith, get-fill k ws o.remaining)

-- A worker under a new identifier.
pub has_id-insert :
    (x w : String) (h : WorkerHandle) (ws : Workers)
    → HashMap.get w ws ≡ none
    → has_id x (HashMap.insert w h ws) ≡ (has_id x ws || contains h.subscribed_ids x)
unfolding HashMap.get HashMap.insert has_id
has_id-insert x w h [] new_id = ground arith
has_id-insert x w h ((v, g) ∷ ws) new_id = ground (arith, has_id-insert x w h ws)

pub sum_ids-insert :
    (w : String) (h : WorkerHandle) (ws : Workers)
    → HashMap.get w ws ≡ none
    → sum_ids (HashMap.insert w h ws) ≡ sum_ids ws + length h.subscribed_ids
unfolding HashMap.get HashMap.insert sum_ids
sum_ids-insert w h [] new_id = omega arith
sum_ids-insert w h ((v, g) ∷ ws) new_id = ground (arith, sum_ids-insert w h ws)
