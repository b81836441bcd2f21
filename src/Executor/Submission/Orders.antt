-- ===== src/Executor/Submission/Orders.antt =====
-- What a submission does to the world, and what it leaves out.
use wup_demo.Prelude.{
  ℕ, String, Bool, true, Option, none, some, ◌≡◌, ◌⊎◌, refl, ap, inl, inr, Bool-cases,
}
use wup_demo.Decimal.{Decimals, Decimal}
use wup_demo.Executor
use wup_demo.Executor.{OrderSide, OrderType, OrderRequest, OrderResponse}
use wup_demo.Executor.Submission.{
  Clock, PolymarketExecutor, submit_order, client_submit_order, submit_market, submit_limit,
  submit_typed, platform_result, SdkOrderType, dry_response,
}

module _ ⦃D : Decimals⦄ where
  -- A market order without an amount, or another order without a price or a size.
  abbrev pub Lacks : OrderType → OrderRequest → Type 0
  Lacks OrderType.market req = req.amount ≡ none
  Lacks order_type req = (req.price ≡ none) ⊎ (req.size ≡ none)

module _ ⦃D : Decimals⦄ {World : Type 0} (clock : Clock) (e : PolymarketExecutor World) where
  -- An order that lacks a field that its type needs touches nothing outside of the program, whether
  -- or not the run is dry; and in a dry run no order does, whatever its fields.
  pub submit_order-untouched :
      (req : OrderRequest) (w : World)
      → (e.dry_run ≡ true) ⊎ Lacks req.order_type req
      → (submit_order clock e req w).1 ≡ w
  unfolding submit_order client_submit_order submit_market submit_limit
  submit_order-untouched req w (inl dry) = rw dry
  submit_order-untouched req w (inr missing) = elim (Bool-cases e.dry_run) [
    | inl dry ↦ rw dry
    | inr wet ↦ rw wet (go req.order_type missing)
  ]
    where
      market :
          (o : Option Decimal) → o ≡ none → (platform_result (submit_market e.client req o w)).1 ≡ w
      market none a = refl
      market (some value) a = absurd (cc a)

      limit :
          (t : SdkOrderType) (price size : Option Decimal)
          → (price ≡ none) ⊎ (size ≡ none)
          → (platform_result (submit_limit e.client req t price size w)).1 ≡ w
      limit t none size h = refl
      limit t (some price) none h = refl
      limit t (some price) (some size) (inl p) = absurd (cc p)
      limit t (some price) (some size) (inr s) = absurd (cc s)

      go : (t : OrderType) → Lacks t req → (platform_result (submit_typed e.client req t w)).1 ≡ w
      go OrderType.market h = market req.amount h
      go OrderType.gtc h = limit _ req.price req.size h
      go OrderType.gtd h = limit _ req.price req.size h
      go OrderType.fok h = limit _ req.price req.size h

  -- The expiry, the post-only flag and the tick size of an order have no effect: whatever they are,
  -- the same calls are made and the answer is the same.
  pub submit_order-ignores :
      (req : OrderRequest) (expiration : Option ℕ) (post_only : Option Bool)
      (tick_size : Option String) (w : World)
      → submit_order clock e
          (record req { expiration = expiration; post_only = post_only; tick_size = tick_size })
          w
        ≡ submit_order clock e req w
  unfolding submit_order client_submit_order submit_market submit_limit dry_response
  submit_order-ignores req expiration post_only tick_size w = elim (Bool-cases e.dry_run) [
    | inl dry ↦ rw dry (ap (λ r. (Executor.ok r, w)) (dried req.order_type))
    | inr wet ↦ rw wet (ap platform_result (typed req.order_type))
  ]
    where
      other : OrderRequest
      other = record req { expiration = expiration; post_only = post_only; tick_size = tick_size }

      dried : (t : OrderType) → dry_response clock other t ≡ dry_response clock req t
      dried OrderType.market = refl
      dried OrderType.gtc = refl
      dried OrderType.gtd = refl
      dried OrderType.fok = refl

      market :
          (o : Option Decimal) → submit_market e.client other o w ≡ submit_market e.client req o w
      market none = refl
      market (some value) = refl

      limit :
          (t : SdkOrderType) (price size : Option Decimal)
          → submit_limit e.client other t price size w ≡ submit_limit e.client req t price size w
      limit t none size = refl
      limit t (some price) none = refl
      limit t (some price) (some size) = refl

      typed : (t : OrderType) → submit_typed e.client other t w ≡ submit_typed e.client req t w
      typed OrderType.market = market req.amount
      typed OrderType.gtc = limit _ req.price req.size
      typed OrderType.gtd = limit _ req.price req.size
      typed OrderType.fok = limit _ req.price req.size
