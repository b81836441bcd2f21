-- ===== src/Worker/Backoff.antt =====
-- The delays between the attempts of a worker to connect.
use wup_demo.Prelude.{
  ℕ, zero, suc, ◌*◌, ◌^◌, min, Bool, true, false, if◌then◌else◌, List, [], ◌∷◌, ◌≡◌, refl, ◌∙◌, sym,
  ap, arith,
}
use native.Mathlib.Nat.{mul_assoc, pow-suc}
use wup_demo.Worker.Connection.{
  WsHandler, WsManagerConfig, Message, Left, Attempt, Rounds, next_delay, left_by, attempt,
  run_from, run,
}

-- The delay after `n` attempts have failed, in closed form.
unfoldable pub backoff : ℕ → ℕ → ℕ → ℕ
backoff initial max zero = initial
backoff initial max (suc n) = min (initial * 2 ^ suc n) max

-- The first `n` delays from the `k`-th on.
unfoldable pub delays_from : ℕ → ℕ → ℕ → ℕ → List ℕ
delays_from initial max k zero = []
delays_from initial max k (suc n) = backoff initial max k ∷ delays_from initial max (suc k) n

doubled : (p max : ℕ) → min (min p max * 2) max ≡ min (p * 2) max
doubled p max = omega arith

next-backoff :
    (initial max k : ℕ) → min (backoff initial max k * 2) max ≡ backoff initial max (suc k)
unfolding backoff
next-backoff initial max zero = omega arith
next-backoff initial max (suc k) =
    doubled (initial * 2 ^ suc k) max
    ∙ ap (λ p. min p max) (mul_assoc initial (2 ^ suc k) 2)
    ∙ ap (λ q. min (initial * q) max) (sym (pow-suc 2 (suc k)))

module _ {H : Type 0} (handler : WsHandler H) (writes : Message → Bool)
    (config : WsManagerConfig) where
  abbrev first : ℕ
  first = config.reconnect_delay

  abbrev most : ℕ
  most = config.max_reconnect_delay

  abbrev pub is_lost : Left → Bool
  is_lost Left.shut_down = false
  is_lost Left.lost = true
  is_lost Left.running = false

  -- The attempts that end in an error, up to the first that does not.
  unfoldable pub failures : List Attempt → H → ℕ
  failures [] h = 0
  failures (a ∷ attempts) h =
      let after = attempt handler writes config a h in
      let rest = failures attempts after.0 in if is_lost after.1 then suc rest else 0

  delays-left_by :
      (k delay n : ℕ) (l : Left) (h : H) (rest : Rounds H)
      → delay ≡ backoff first most k
      → rest.delays ≡ delays_from first most (suc k) n
      → (left_by l h delay rest).delays ≡ delays_from first most k (if is_lost l then suc n else 0)
  unfolding delays_from
  delays-left_by k delay n Left.shut_down h rest e ih = refl
  delays-left_by k delay n Left.running h rest e ih = refl
  delays-left_by k delay n Left.lost h rest e ih = rw e (ap (backoff first most k ∷◌) ih)

  delays-run_from :
      (k : ℕ) (delay : ℕ) (attempts : List Attempt) (h : H)
      → delay ≡ backoff first most k
      → (run_from handler writes config delay attempts h).delays
        ≡ delays_from first most k (failures attempts h)
  unfolding run_from delays_from failures
  delays-run_from k delay [] h e = refl
  delays-run_from k delay (a ∷ attempts) h e =
      let after = attempt handler writes config a h in
      delays-left_by k delay (failures attempts after.0) after.1 after.0 _ e (
        delays-run_from (suc k) (next_delay config delay) attempts after.0
          (ap (λ d. min (d * 2) most) e ∙ next-backoff first most k))

  -- A worker waits once after each attempt to connect that ends in an error, and no more after the
  -- first that does not. It waits for the initial delay after the first of them, and after `n` more
  -- for that delay times 2^n, or for the maximum if that is less, however long the connections lasted
  -- in between: one that worked does not bring the delay back to the initial one.
  pub delays-run :
      (attempts : List Attempt) (h : H)
      → (run handler writes config attempts h).delays
        ≡ delays_from first most 0 (failures attempts h)
  unfolding run backoff
  delays-run attempts h = delays-run_from 0 first attempts h refl
