-- ===== src/Chunk/Retry.antt =====
-- The retry ladder of pkg/chunk/chunk.go: how often it tries, and how long it sleeps.
use native.Mathlib.Nat.{pow-suc}
use native.Mathlib.Numerals.{towards_suc}
use xll_gen.Prelude.{
  ℕ, zero, suc, ◌+◌, ◌-◌, ◌*◌, ◌^◌, ◌≤◌, ◌<◌, ◌≡◌, ap, inl, inr, List, [], ◌∷◌, ◌++◌, Option, none,
  some, arith, length, positive_or, Option-cases,
}
use xll_gen.Chunk.{Frame, RetryPolicy, retry_from, send_with_retry, backoff}

abbrev pub sum : List ℕ → ℕ
sum [] = 0
sum (x ∷ xs) = x + sum xs

abbrev Sleeps : ℕ → ℕ → ℕ → List ℕ → Type 0
Sleeps base left i slept =
    (length slept ≤ left) × (sum slept + base * 2 ^ i ≡ base * 2 ^ (i + length slept))

Sleeps-nil : (base left i : ℕ) → Sleeps base left i []
Sleeps-nil base left i =
    let e : base * 2 ^ i ≡ base * 2 ^ (i + 0) = ap (λ n. base * 2 ^ n) (omega arith) in
    (omega arith, omega (arith, e))

-- One more sleep in front of those of the later rounds.
Sleeps-backoff :
    (base left i : ℕ) (slept : List ℕ)
    → Sleeps base left (i + 1) slept
    → Sleeps base (suc left) i (backoff base i ++ slept)
unfolding backoff
Sleeps-backoff zero left i slept h = omega (arith, h)
Sleeps-backoff (suc b) left i slept h =
    let longer : suc b * 2 ^ (i + 1 + length slept) ≡ suc b * 2 ^ (i + suc (length slept)) =
      ap (λ n. suc b * 2 ^ n) (omega arith) in
    let doubled : suc b * 2 ^ (i + 1) ≡ suc b * 2 ^ i + suc b * 2 ^ i =
      simp towards_suc (rw pow-suc (omega arith)) in
    (ground (arith, h.0), ground (arith, h.1, longer, doubled))

module _ {ℓ κ} {E : Type ℓ} {S : Type κ} (deliver : Frame → S → Option E × S) (frame : Frame)
    (base : ℕ) where
  retry_from-Sleeps :
      (left i : ℕ) (s : S) → Sleeps base left i (retry_from deliver frame base left i s).slept
  unfolding retry_from
  retry_from-Sleeps zero i s = Sleeps-nil base 0 i
  retry_from-Sleeps (suc left) i s = elim (Option-cases (deliver frame s).0) [
    | inl e ↦ rw (e, retry_from) (Sleeps-nil base (suc left) i)
    | inr (x, e) ↦
        rw (e, retry_from)
          (Sleeps-backoff base left i _ (retry_from-Sleeps left (i + 1) (deliver frame s).1))
  ]

-- Whatever the transport does, the ladder sleeps at most once between two attempts, each sleep is
-- twice the one before it, and all of them together last base * 2 ^ k - base for k sleeps. With the
-- policy of the async path that is 2555 ms at most.
send_with_retry_sleeps {ℓ κ} :
    {E : Type ℓ} {S : Type κ} (deliver : Frame → S → Option E × S) (frame : Frame)
    (policy : RetryPolicy) (s : S)
    → let slept = (send_with_retry deliver frame policy s).slept in
      (length slept ≤ positive_or 1 policy.attempts - 1)
      × (sum slept + policy.base_backoff ≡ policy.base_backoff * 2 ^ length slept)
unfolding send_with_retry
send_with_retry_sleeps deliver frame policy s =
    let h =
      retry_from-Sleeps deliver frame policy.base_backoff (positive_or 1 policy.attempts - 1) 0 s in
    let e : policy.base_backoff * 2 ^ (0 + length (send_with_retry deliver frame policy s).slept)
        ≡ policy.base_backoff * 2 ^ length (send_with_retry deliver frame policy s).slept =
      ap (λ n. policy.base_backoff * 2 ^ n) (omega arith) in
    (h.0, omega (arith, h.1, e))

-- A transport that fails as often as its state says, and then delivers.
abbrev pub flaky : Frame → ℕ → Option (Unit {0}) × ℕ
flaky frame zero = (none, 0)
flaky frame (suc n) = (some tt, n)

retry_from-flaky :
    (frame : Frame) (base left i n : ℕ)
    → let r = retry_from flaky frame base left i n in
      (n ≤ left → (r.error ≡ none) × (r.state ≡ 0) × (length r.slept ≤ n))
      × (left < n → (r.error ≡ some tt) × (r.state + left + 1 ≡ n))
unfolding retry_from backoff
retry_from-flaky frame base zero i zero = ground arith
retry_from-flaky frame base zero i (suc n) = ground arith
retry_from-flaky frame base (suc left) i zero = ground arith
retry_from-flaky frame base (suc left) i (suc n) =
    ground (arith, retry_from-flaky frame base left (i + 1) n)

-- The ladder makes exactly `attempts` tries (one, if that is not positive): it gets through a
-- transport that fails fewer times than that, and reports the error of one that fails as often or
-- more, having tried `attempts` times.
pub send_with_retry_attempts :
    (frame : Frame) (policy : RetryPolicy) (n : ℕ)
    → let attempts = positive_or 1 policy.attempts in
      let r = send_with_retry flaky frame policy n in
      (n < attempts → (r.error ≡ none) × (r.state ≡ 0))
      × (attempts ≤ n → (r.error ≡ some tt) × (r.state + attempts ≡ n))
unfolding send_with_retry
send_with_retry_attempts frame policy n =
    ground
      (arith, retry_from-flaky frame policy.base_backoff (positive_or 1 policy.attempts - 1) 0 n)
