-- ===== src/Aggregator/Offers.antt =====
-- The three ways in which the loops over the workers treat one worker.
use wup_demo.Prelude.{
  ℕ, ◌+◌, ◌-◌, ◌≤◌, min, String, Bool, true, false, List, [], ◌∷◌, length, take, drop, ltb, ◌≡◌,
  refl, ◌⊎◌, arith, Bool-cases, inl, inr,
}
use wup_demo.Aggregator.{WorkerHandle, Offer, offer, send_subscribe}

module _ {A : Type 0} (id_of : A → String) (accepts : String → Bool) (max : ℕ) where
  abbrev sends : String → WorkerHandle → List A → ℕ → Bool → Offer A
  sends w h items n = send_subscribe id_of accepts max w h (take n items) (drop n items)

  -- A worker is passed over, or is sent as many items as it has room for, or has these put back.
  pub offer-cases :
      (w : String) (h : WorkerHandle) (items : List A)
      → (offer id_of accepts max w h items ≡ record { handle = h; remaining = items; sent = [] })
        ⊎ ((n : ℕ) × (length h.subscribed_ids + n ≤ max)
            × (accepts w ≡ true)
            × (offer id_of accepts max w h items ≡ sends w h items n true))
        ⊎ ((n : ℕ) × (accepts w ≡ false)
            × (offer id_of accepts max w h items ≡ sends w h items n false))
  unfolding offer
  offer-cases w h [] = inl refl
  offer-cases w h (x ∷ xs) =
      let n = min (max - length h.subscribed_ids) (length (x ∷ xs)) in
      elim (Bool-cases (ltb 0 (max - length h.subscribed_ids))) [
        | inr e ↦ inl (rw e)
        | inl e ↦ elim (Bool-cases (accepts w)) [
          | inl a ↦ inr (inl (n, ground arith, a, rw (e, a)))
          | inr a ↦ inr (inr (n, a, rw (e, a)))
        ]
      ]
