-- ===== src/Server/AsyncBatcher/Order.antt =====
-- The order and the bounds of the async batcher (pkg/server/batcher.go).
use xll_gen.Prelude.{
  suc, ◌≤◌, ◌<◌, ◌≡◌, refl, ap, inl, inr, List, [], ◌∷◌, ◌++◌, arith, Bool-cases, length,
  length-append, append_assoc, ltb,
}
use xll_gen.Server.AsyncBatcher.{
  Phase, checking, waiting, filling, flushing, exited, AsyncBatcher, queue_capacity, max_batch_size,
  new_async_batcher, queue_result_check, queue_result_send, stop_latch, stop_signal, Step, Steps,
  result_offered, result_sent, gate_latched, stop_signalled, worker_started, checked_open,
  checked_stop, wait_stopped, item_received, batch_filled, batch_ready, batch_flushed, done,
  then_step,
}

module _ {ℓ} {R : Type ℓ} where
  -- The batch that the worker holds.
  abbrev pub in_hand : Phase R → List R
  in_hand (filling b) = b
  in_hand (flushing b) = b
  in_hand _ = []

  pub record IsOrdered (ab : AsyncBatcher R) : Type ℓ where
    pub kept : ab.flushed ++ (in_hand ab.phase ++ ab.queue) ≡ ab.accepted
    pub queue_fits : length ab.queue ≤ queue_capacity
    pub batch_fits : length (in_hand ab.phase) ≤ max_batch_size

  send-IsOrdered :
      (ab : AsyncBatcher R) (r : R) (others : List R)
      → IsOrdered ab
      → IsOrdered (queue_result_send ab r others)
  unfolding queue_result_send
  send-IsOrdered ab r others v = elim (Bool-cases (ltb (length ab.queue) queue_capacity)) [
    | inl y ↦
        let l = length-append ab.queue (r ∷ []) in
        let one = append_assoc (in_hand ab.phase) ab.queue (r ∷ []) in
        let two = append_assoc ab.flushed (in_hand ab.phase ++ ab.queue) (r ∷ []) in
        let k = v.kept in
        rw y (record { kept = cc; queue_fits = ground (arith, l); batch_fits = v.batch_fits })
    | inr f ↦ rw f (record { kept = v.kept; queue_fits = v.queue_fits; batch_fits = v.batch_fits })
  ]

  check-IsOrdered :
      (ab : AsyncBatcher R) (r : R) → IsOrdered ab → IsOrdered (queue_result_check ab r)
  unfolding queue_result_check
  check-IsOrdered ab r v = elim (Bool-cases ab.stopped) [
    | inl y ↦ rw y (record { kept = v.kept; queue_fits = v.queue_fits; batch_fits = v.batch_fits })
    | inr f ↦ rw f (record { kept = v.kept; queue_fits = v.queue_fits; batch_fits = v.batch_fits })
  ]

  -- A change of phase that keeps the batch in hand and the queue.
  phase-IsOrdered :
      (ab : AsyncBatcher R) (p : Phase R)
      → in_hand ab.phase ≡ in_hand p
      → IsOrdered ab
      → IsOrdered (record ab { phase = p })
  phase-IsOrdered ab p e v =
      let k = v.kept in
      let b = v.batch_fits in
      record { kept = cc; queue_fits = v.queue_fits; batch_fits = rw e at b }

  -- The worker takes the first result of the queue.
  take-IsOrdered :
      (ab : AsyncBatcher R) (b : List R) (r : R) (rest : List R)
      → in_hand ab.phase ≡ b
      → length b < max_batch_size
      → ab.queue ≡ r ∷ rest
      → IsOrdered ab
      → IsOrdered (record ab { phase = filling (b ++ (r ∷ [])); queue = rest })
  take-IsOrdered ab b r rest e l q v =
      let k = v.kept in
      let one = append_assoc b (r ∷ []) rest in
      let grown = length-append b (r ∷ []) in
      let n : length ab.queue ≡ suc (length rest) = ap length q in
      record {
        kept = cc;
        queue_fits = omega (arith, v.queue_fits, n);
        batch_fits = omega (arith, grown, l);
      }

  Step-IsOrdered : (a b : AsyncBatcher R) → Step a b → IsOrdered a → IsOrdered b
  unfolding stop_latch stop_signal
  Step-IsOrdered _ _ (result_offered ab r) v = check-IsOrdered ab r v
  Step-IsOrdered _ _ (result_sent ab r before after e) v = send-IsOrdered ab r (before ++ after) v
  Step-IsOrdered _ _ (gate_latched ab) v = record {
    kept = v.kept;
    queue_fits = v.queue_fits;
    batch_fits = v.batch_fits;
  }
  Step-IsOrdered _ _ (stop_signalled ab e) v = record {
    kept = v.kept;
    queue_fits = v.queue_fits;
    batch_fits = v.batch_fits;
  }
  Step-IsOrdered _ _ (worker_started ab e) v = phase-IsOrdered ab checking (ap in_hand e) v
  Step-IsOrdered _ _ (checked_open ab e f) v = phase-IsOrdered ab waiting (ap in_hand e) v
  Step-IsOrdered _ _ (checked_stop ab e f) v = phase-IsOrdered ab exited (ap in_hand e) v
  Step-IsOrdered _ _ (wait_stopped ab e f) v = phase-IsOrdered ab exited (ap in_hand e) v
  Step-IsOrdered _ _ (item_received ab r rest e q) v =
      take-IsOrdered ab [] r rest (ap in_hand e) (omega arith) q v
  Step-IsOrdered _ _ (batch_filled ab b r rest e l q) v =
      take-IsOrdered ab b r rest (ap in_hand e) l q v
  Step-IsOrdered _ _ (batch_ready ab b e q) v = phase-IsOrdered ab (flushing b) (ap in_hand e) v
  Step-IsOrdered _ _ (batch_flushed ab b e) v =
      let k = v.kept in
      let h : in_hand ab.phase ≡ b = ap in_hand e in
      let one = append_assoc ab.flushed b ab.queue in
      record { kept = cc; queue_fits = v.queue_fits; batch_fits = omega arith }

  Steps-IsOrdered : (a b : AsyncBatcher R) → Steps a b → IsOrdered a → IsOrdered b
  Steps-IsOrdered _ _ (done ab) v = v
  Steps-IsOrdered _ _ (then_step a b c x xs) v = Steps-IsOrdered b c xs (Step-IsOrdered a b x v)

-- In any run of a new batcher, the results that were flushed, then those of the batch in hand, then those
-- that wait, are the results that were accepted, in that order: none is lost, doubled or overtaken. At
-- most 1024 wait, and a batch has at most 256.
pub batcher_fifo {ℓ} :
    (R : Type ℓ) (ab : AsyncBatcher R)
    → Steps (new_async_batcher R) ab
    → (ab.flushed ++ (in_hand ab.phase ++ ab.queue) ≡ ab.accepted)
      × (length ab.queue ≤ queue_capacity)
      × (length (in_hand ab.phase) ≤ max_batch_size)
unfolding new_async_batcher
batcher_fifo R ab steps =
    let start : IsOrdered (new_async_batcher R) = record {
      kept = refl;
      queue_fits = omega arith;
      batch_fits = omega arith;
    } in
    let v = Steps-IsOrdered (new_async_batcher R) ab steps start in
    (v.kept, v.queue_fits, v.batch_fits)
