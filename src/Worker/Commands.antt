-- ===== src/Worker/Commands.antt =====
-- The supervisor's list of a worker and the worker's own.
use wup_demo.Prelude.{
  ℕ, zero, suc, String, string_eq, Bool, true, false, not, List, [], ◌∷◌, ◌++◌, map, take, keep,
  contains, ◌≡◌, refl, ◌∙◌, sym, ap, inl, inr, append_nil, append_assoc,
}
use wup_demo.HashMap.{HashMap}
use wup_demo.Commands.{ControlCommand}
use wup_demo.Events.{TokenMapping}
use wup_demo.Aggregator
use wup_demo.Aggregator.{WorkerHandle, Supervisor, offer}
use wup_demo.Aggregator.Departures.{withdraw, withdraw_some}
use wup_demo.Aggregator.Offers.{offer-cases}
use wup_demo.Worker.{
  Writer, PolymarketHandler, push_all, add_subscriptions, remove_subscriptions, handle_command,
  build_subscription_message, build_unsubscription_message,
}

-- Identifiers without repetition, none of which is on the list.
abbrev pub AreNew : List String → List String → Type 0
AreNew ids [] = Unit
AreNew ids (x ∷ xs) = (contains ids x ≡ false) × AreNew (ids ++ x ∷ []) xs

push_all-AreNew : (xs ids : List String) → AreNew ids xs → push_all xs ids ≡ ids ++ xs
unfolding push_all
push_all-AreNew [] ids h = sym (append_nil ids)
push_all-AreNew (x ∷ xs) ids (h, hs) =
    rw h (push_all-AreNew xs (ids ++ x ∷ []) hs ∙ append_assoc ids (x ∷ []) xs)

module _ {A : Type 0} (id_of : A → String) where
  take-AreNew :
      (n : ℕ) (items : List A) (ids : List String)
      → AreNew ids (map id_of items)
      → AreNew ids (map id_of (take n items))
  take-AreNew zero items ids h = tt
  take-AreNew (suc n) [] ids h = tt
  take-AreNew (suc n) (i ∷ items) ids (h, hs) = (h, take-AreNew n items _ hs)

module _ ⦃W : Writer⦄ where
  -- A worker that handles the commands of a log in turn, whoever they are for.
  unfoldable pub handle_all : Aggregator.Sent → PolymarketHandler → PolymarketHandler
  handle_all [] p = p
  handle_all ((w, cmd) ∷ log) p = handle_all log (handle_command cmd p).0

  -- When the supervisor offers a worker identifiers that are new to it and do not repeat, and the
  -- worker handles what it is sent, the two still have the same list, whether the channel takes the
  -- command or not.
  pub offer_agrees :
      {A : Type 0} (id_of : A → String) (accepts : String → Bool) (max : ℕ) (w : String)
      (h : WorkerHandle) (items : List A) (p : PolymarketHandler)
      → p.subscribed_ids ≡ h.subscribed_ids
      → AreNew h.subscribed_ids (map id_of items)
      → (handle_all (offer id_of accepts max w h items).sent p).subscribed_ids
        ≡ (offer id_of accepts max w h items).handle.subscribed_ids
  unfolding handle_all handle_command add_subscriptions
  offer_agrees id_of accepts max w h items p same new =
      elim (offer-cases id_of accepts max w h items) [
        | inl e ↦ rw e same
        | inr (inl (n, room, a, e)) ↦ rw e (
            ap (push_all (map id_of (take n items))) same
            ∙ push_all-AreNew (map id_of (take n items)) h.subscribed_ids
                (take-AreNew id_of n items _ new))
        | inr (inr (n, a, e)) ↦ rw e same
      ]

  -- When the supervisor withdraws identifiers from a worker, and the worker handles what it is
  -- sent, the two still have the same list, whether the channel takes the command or not.
  pub withdraw_agrees :
      (accepts : String → Bool) (ids : List String) (w : String) (h : WorkerHandle)
      (m : HashMap String TokenMapping) (p : PolymarketHandler)
      → p.subscribed_ids ≡ h.subscribed_ids
      → (handle_all (withdraw accepts ids w h m).sent p).subscribed_ids
        ≡ (withdraw accepts ids w h m).handle.subscribed_ids
  unfolding withdraw handle_all handle_command remove_subscriptions
  withdraw_agrees accepts ids w h m p same = go (accepts w) (keep (contains h.subscribed_ids) ids)
    where
      go :
          (b : Bool) (gone : List String)
          → (handle_all (withdraw_some w h m b gone).sent p).subscribed_ids
            ≡ (withdraw_some w h m b gone).handle.subscribed_ids
      go b [] = same
      go false (g ∷ gone) = same
      go true (g ∷ gone) = ap (keep (λ id. not (contains (g ∷ gone) id))) same

  -- The text that asks the exchange to stop is the text that asks it to start: whatever the
  -- identifiers and the worker, both commands make it send the same message.
  pub unsubscribe-same_message :
      (ids : List String) (p q : PolymarketHandler)
      → (handle_command (ControlCommand.unsubscribe ids) p).1
        ≡ (handle_command (ControlCommand.subscribe ids) q).1
  unfolding handle_command build_subscription_message build_unsubscription_message
  unsubscribe-same_message ids p q = refl
