-- ===== src/Server/AsyncBatcher/Shutdown.antt =====
-- Stop of the async batcher (pkg/server/batcher.go), with regard to what the worker still does after it.
use xll_gen.Prelude.{
  ℕ, ◌+◌, ◌≤◌, ◌≡◌, refl, inl, inr, true, false, List, ◌++◌, arith, Bool-cases, length, ltb,
}
use xll_gen.Server.AsyncBatcher.{
  Phase, unstarted, checking, waiting, filling, flushing, exited, AsyncBatcher, queue_capacity,
  queue_result_check, queue_result_send, stop_latch, stop_signal, has_exited, reports_drained,
  is_flushing, Step, Steps, result_offered, result_sent, gate_latched, stop_signalled,
  worker_started, checked_open, checked_stop, wait_stopped, item_received, batch_filled,
  batch_ready, batch_flushed, done, then_step,
}

module _ {ℓ} {R : Type ℓ} where
  -- How many flushes the worker can still end without passing its check of `stop`.
  abbrev ahead : Phase R → ℕ
  ahead unstarted = 0
  ahead checking = 0
  ahead waiting = 1
  ahead (filling b) = 1
  ahead (flushing b) = 1
  ahead exited = 0

  -- The stop channel is closed, and at most `n` flushes are done or can still be.
  abbrev IsBound : ℕ → AsyncBatcher R → Type 0
  IsBound n ab = (ab.stop ≡ true) × (ab.flushes + ahead ab.phase ≤ n)

  check-IsBound :
      (ab : AsyncBatcher R) (r : R) (n : ℕ) → IsBound n ab → IsBound n (queue_result_check ab r)
  unfolding queue_result_check
  check-IsBound ab r n v = elim (Bool-cases ab.stopped) [ inl y ↦ rw y v | inr f ↦ rw f (v.0, v.1) ]

  send-IsBound :
      (ab : AsyncBatcher R) (r : R) (others : List R) (n : ℕ)
      → IsBound n ab
      → IsBound n (queue_result_send ab r others)
  unfolding queue_result_send
  send-IsBound ab r others n v = elim (Bool-cases (ltb (length ab.queue) queue_capacity)) [
    | inl y ↦ rw y (v.0, v.1)
    | inr f ↦ rw f (v.0, v.1)
  ]

  Step-IsBound : (a b : AsyncBatcher R) (n : ℕ) → Step a b → IsBound n a → IsBound n b
  unfolding stop_latch stop_signal
  Step-IsBound _ _ n (result_offered ab r) v = check-IsBound ab r n v
  Step-IsBound _ _ n (result_sent ab r before after e) v = send-IsBound ab r (before ++ after) n v
  Step-IsBound _ _ n (gate_latched ab) v = v
  Step-IsBound _ _ n (stop_signalled ab e) v = (refl, v.1)
  Step-IsBound _ _ n (worker_started ab e) v = (v.0, rw e at v.1)
  Step-IsBound _ _ n (checked_open ab e f) v = absurd (cc (v.0, f))
  Step-IsBound _ _ n (checked_stop ab e f) v = (v.0, rw e at v.1)
  Step-IsBound _ _ n (wait_stopped ab e f) v = (v.0, omega (arith, v.1))
  Step-IsBound _ _ n (item_received ab r rest e q) v = (v.0, rw e at v.1)
  Step-IsBound _ _ n (batch_filled ab b r rest e l q) v = (v.0, rw e at v.1)
  Step-IsBound _ _ n (batch_ready ab b e q) v = (v.0, rw e at v.1)
  Step-IsBound _ _ n (batch_flushed ab b e) v =
      let l : ab.flushes + 1 ≤ n = rw e at v.1 in (v.0, omega (arith, l))

  Steps-IsBound : (a b : AsyncBatcher R) (n : ℕ) → Steps a b → IsBound n a → IsBound n b
  Steps-IsBound _ _ n (done ab) v = v
  Steps-IsBound _ _ n (then_step a b c x xs) v = Steps-IsBound b c n xs (Step-IsBound a b n x v)

  Step-flushes : (a b : AsyncBatcher R) → Step a b → a.flushes ≤ b.flushes
  unfolding queue_result_check queue_result_send stop_latch stop_signal
  Step-flushes _ _ (result_offered ab r) = elim (Bool-cases ab.stopped) [
    | inl y ↦ rw y (omega arith)
    | inr f ↦ rw f (omega arith)
  ]
  Step-flushes _ _ (result_sent ab r before after e) =
      elim (Bool-cases (ltb (length ab.queue) queue_capacity)) [
        | inl y ↦ rw y (omega arith)
        | inr f ↦ rw f (omega arith)
      ]
  Step-flushes _ _ (gate_latched ab) = omega arith
  Step-flushes _ _ (stop_signalled ab e) = omega arith
  Step-flushes _ _ (worker_started ab e) = omega arith
  Step-flushes _ _ (checked_open ab e f) = omega arith
  Step-flushes _ _ (checked_stop ab e f) = omega arith
  Step-flushes _ _ (wait_stopped ab e f) = omega arith
  Step-flushes _ _ (item_received ab r rest e q) = omega arith
  Step-flushes _ _ (batch_filled ab b r rest e l q) = omega arith
  Step-flushes _ _ (batch_ready ab b e q) = omega arith
  Step-flushes _ _ (batch_flushed ab b e) = omega arith

  Steps-flushes : (a b : AsyncBatcher R) → Steps a b → a.flushes ≤ b.flushes
  Steps-flushes _ _ (done ab) = omega arith
  Steps-flushes _ _ (then_step a b c x xs) =
      let first = Step-flushes a b x in let later = Steps-flushes b c xs in omega arith

  ahead_le : (p : Phase R) → ahead p ≤ 1
  ahead_le unstarted = omega arith
  ahead_le checking = omega arith
  ahead_le waiting = omega arith
  ahead_le (filling b) = omega arith
  ahead_le (flushing b) = omega arith
  ahead_le exited = omega arith

  gone-ahead : (p : Phase R) → has_exited p ≡ true → ahead p ≡ 0
  gone-ahead unstarted h = refl
  gone-ahead checking h = refl
  gone-ahead waiting h = absurd cc
  gone-ahead (filling b) h = absurd cc
  gone-ahead (flushing b) h = absurd cc
  gone-ahead exited h = refl

  at_rest : (p : Phase R) → ahead p ≡ 0 → is_flushing p ≡ false
  at_rest unstarted h = refl
  at_rest checking h = refl
  at_rest waiting h = refl
  at_rest (filling b) h = refl
  at_rest (flushing b) h = absurd (omega (arith, h))
  at_rest exited h = refl

-- Once the stop channel is closed, the worker ends at most one more flush, the one it was in or about to
-- make, whatever callers, the worker and other callers of Stop do. Once Stop can report a drained worker,
-- no flush is under way and none is ever made, also by a worker that is started later.
pub stop_quiesces {ℓ} :
    {R : Type ℓ} (ab later : AsyncBatcher R)
    → ab.stop ≡ true
    → Steps ab later
    → (later.flushes ≤ ab.flushes + 1)
      × (reports_drained ab ≡ true
          → (is_flushing later.phase ≡ false) × (later.flushes ≡ ab.flushes))
stop_quiesces ab later stop steps =
    let bound = Steps-IsBound ab later (ab.flushes + ahead ab.phase) steps (stop, omega arith) in
    let le = ahead_le ab.phase in
    let grown = Steps-flushes ab later steps in
    (
      omega (arith, bound.1),
      λ drained.
          let gone : has_exited ab.phase ≡ true = rw stop at drained in
          let z = gone-ahead ab.phase gone in
          (at_rest later.phase (omega (arith, bound.1)), omega (arith, bound.1)),
    )
