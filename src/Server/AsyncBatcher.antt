-- ===== src/Server/AsyncBatcher.antt =====
-- pkg/server/batcher.go: the queue of async results, its worker and Stop, as a step relation over what
-- callers, the worker and the callers of Stop do, in any interleaving. QueueResult takes two steps: it
-- looks at the gate, and then sends. A result is any value. A flush that panics is a flush.
pub mod Order
pub mod Shutdown
mod Runs
use xll_gen.Prelude.{
  ℕ, zero, suc, ◌+◌, ◌≤◌, ◌<◌, ◌≡◌, Bool, true, false, not, ◌||◌, ◌&&◌, List, [], ◌∷◌, ◌++◌, length,
  ltb, if◌then◌else◌,
}

abbrev pub queue_capacity : ℕ
queue_capacity = 1024

abbrev pub max_batch_size : ℕ
max_batch_size = 256

-- Where the worker is: not started, before its check of `stop`, at the blocking select, in the drain
-- loop with a batch, inside a flush, or gone.
pub data Phase {ℓ} (R : Type ℓ) : Type ℓ where
  unstarted : Phase R
  checking : Phase R
  waiting : Phase R
  filling : List R → Phase R
  flushing : List R → Phase R
  exited : Phase R

-- `passed` holds the results of the callers that found the gate open and have not sent yet.
-- `accepted`, `flushed` and `flushes` record what happened, for the proofs only.
pub record AsyncBatcher {ℓ} (R : Type ℓ) : Type ℓ where
  pub queue : List R
  pub stopped : Bool
  pub stop : Bool
  pub phase : Phase R
  pub passed : List R
  pub accepted : List R
  pub flushed : List R
  pub flushes : ℕ

unfoldable pub new_async_batcher {ℓ} : (R : Type ℓ) → AsyncBatcher R
new_async_batcher R = record {
  queue = [];
  stopped = false;
  stop = false;
  phase = unstarted;
  passed = [];
  accepted = [];
  flushed = [];
  flushes = 0;
}

module _ {ℓ} {R : Type ℓ} where
  -- A stopped batcher drops the result.
  unfoldable pub queue_result_check : AsyncBatcher R → R → AsyncBatcher R
  queue_result_check ab r = if ab.stopped then ab else record ab { passed = r ∷ ab.passed }

  -- A full queue drops it too.
  unfoldable pub queue_result_send : AsyncBatcher R → R → List R → AsyncBatcher R
  queue_result_send ab r others =
      if ltb (length ab.queue) queue_capacity
      then record ab {
        queue = ab.queue ++ (r ∷ []);
        passed = others;
        accepted = ab.accepted ++ (r ∷ []);
      }
      else record ab { passed = others }

  -- The `stopOnce` of Stop, in its order.
  unfoldable pub stop_latch : AsyncBatcher R → AsyncBatcher R
  stop_latch ab = record ab { stopped = true }

  unfoldable pub stop_signal : AsyncBatcher R → AsyncBatcher R
  stop_signal ab = record ab { stop = true }

  abbrev pub has_exited : Phase R → Bool
  has_exited unstarted = true
  has_exited exited = true
  has_exited _ = false

  -- When Stop reports that the worker drained: none was started, or it is gone.
  abbrev pub reports_drained : AsyncBatcher R → Bool
  reports_drained ab = ab.stop && has_exited ab.phase

  abbrev pub is_flushing : Phase R → Bool
  is_flushing (flushing b) = true
  is_flushing _ = false

  pub data Step : AsyncBatcher R → AsyncBatcher R → Type ℓ where
    result_offered : (ab : AsyncBatcher R) (r : R) → Step ab (queue_result_check ab r)
    result_sent :
        (ab : AsyncBatcher R) (r : R) (before after : List R)
        → ab.passed ≡ before ++ (r ∷ after)
        → Step ab (queue_result_send ab r (before ++ after))
    gate_latched : (ab : AsyncBatcher R) → Step ab (stop_latch ab)
    stop_signalled : (ab : AsyncBatcher R) → ab.stopped ≡ true → Step ab (stop_signal ab)
    worker_started :
        (ab : AsyncBatcher R) → ab.phase ≡ unstarted → Step ab (record ab { phase = checking })
    checked_open :
        (ab : AsyncBatcher R)
        → ab.phase ≡ checking
        → ab.stop ≡ false
        → Step ab (record ab { phase = waiting })
    checked_stop :
        (ab : AsyncBatcher R)
        → ab.phase ≡ checking
        → ab.stop ≡ true
        → Step ab (record ab { phase = exited })
    wait_stopped :
        (ab : AsyncBatcher R)
        → ab.phase ≡ waiting
        → ab.stop ≡ true
        → Step ab (record ab { phase = exited })
    item_received :
        (ab : AsyncBatcher R) (r : R) (rest : List R)
        → ab.phase ≡ waiting
        → ab.queue ≡ r ∷ rest
        → Step ab (record ab { phase = filling (r ∷ []); queue = rest })
    batch_filled :
        (ab : AsyncBatcher R) (b : List R) (r : R) (rest : List R)
        → ab.phase ≡ filling b
        → length b < max_batch_size
        → ab.queue ≡ r ∷ rest
        → Step ab (record ab { phase = filling (b ++ (r ∷ [])); queue = rest })
    batch_ready :
        (ab : AsyncBatcher R) (b : List R)
        → ab.phase ≡ filling b
        → (length b < max_batch_size → ab.queue ≡ [])
        → Step ab (record ab { phase = flushing b })
    batch_flushed :
        (ab : AsyncBatcher R) (b : List R)
        → ab.phase ≡ flushing b
        → Step ab
            (record ab { phase = checking; flushed = ab.flushed ++ b; flushes = ab.flushes + 1 })

  pub data Steps : AsyncBatcher R → AsyncBatcher R → Type ℓ where
    done : (ab : AsyncBatcher R) → Steps ab ab
    then_step : (a b c : AsyncBatcher R) → Step a b → Steps b c → Steps a c
