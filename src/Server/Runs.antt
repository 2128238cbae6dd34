-- ===== src/Server/Runs.antt =====
-- Concrete runs of the async flush, the teardown and the job pool (pkg/server).
use xll_gen.Prelude.{
  ℕ, zero, suc, ◌+◌, ◌≤◌, ◌≡◌, true, false, List, [], ◌∷◌, Option, none, some, pos, negsuc, length,
  arith, positive_or,
}
use xll_gen.Chunk.{max_transfer_bytes}
use xll_gen.Chunk.Retry.{flaky}
use xll_gen.Server.AsyncFlush.{PendingAsyncResult, flush_async_batch}
use xll_gen.Server.AsyncFlush.Answers.{Flushed, flush_async_batch-Answers}
use xll_gen.Server.Lifecycle.{
  shut_down, jobs_late, new_lifecycle, run_from, torn_down, teardown_order,
}
use xll_gen.Server.JobPool.{
  new_job_pool, submit, close_queue, is_drained, done, then_step, submitted, closed_queue,
  job_pool_drains,
}

-- Fails as often as its state says.
abbrev weak : List ℕ → ℕ → Option (Unit {0}) × ℕ
weak payload zero = (none, 0)
weak payload (suc n) = (some tt, n)

-- An encoding of one byte a result.
abbrev encode_handles : List (PendingAsyncResult ℕ) → List ℕ
encode_handles [] = []
encode_handles (r ∷ rs) = r.value ∷ encode_handles rs

abbrev pending : List (PendingAsyncResult ℕ)
pending =
    record { handle = 1 ∷ []; value = 10; err = "" }
    ∷ record { handle = 2 ∷ []; value = 20; err = "" }
    ∷ []

abbrev fresh_id : ℕ → ℕ × ℕ
fresh_id n = (7, n)

flush_async_batch-Answers_example :
    let flush_batch =
      flush_async_batch encode_handles 0
        (λ size limit. "too large")
        weak
        flaky
        fresh_id
        (some (pos 1000)) in
    Flushed encode_handles 0
      (λ size limit. "too large")
      weak
      flaky
      fresh_id
      (some (pos 1000))
      max_transfer_bytes
      pending
      2
      (flush_batch true pending 2)
    × (flush_batch false pending 2 ≡ 2)
flush_async_batch-Answers_example =
    flush_async_batch-Answers encode_handles 0 (λ size limit. "too large") weak flaky fresh_id
      (some (pos 1000)) pending 2

teardown_order_example :
    (run_from true true (shut_down ∷ jobs_late ∷ shut_down ∷ []) (new_lifecycle, [])).1
    ≡ torn_down true true false (shut_down ∷ jobs_late ∷ shut_down ∷ [])
teardown_order_example = teardown_order true true (shut_down ∷ jobs_late ∷ shut_down ∷ [])

job_pool_drains_example :
    let p = close_queue (submit (new_job_pool ℕ 4 (negsuc 0)) 9).0 in
    let n = positive_or 4 (negsuc 0) in
    (length p.queue ≤ n)
    × (p.running ≤ n)
    × (p.accepted ≡ length p.queue + p.running + p.finished)
    × (is_drained p ≡ true → (p.finished ≡ p.accepted) × ((job : ℕ) → submit p job ≡ (p, false)))
job_pool_drains_example =
    job_pool_drains ℕ 4 (negsuc 0) (close_queue (submit (new_job_pool ℕ 4 (negsuc 0)) 9).0)
      (omega arith)
      (then_step _ _ _ (submitted (new_job_pool ℕ 4 (negsuc 0)) 9)
        (then_step _ _ _ (closed_queue (submit (new_job_pool ℕ 4 (negsuc 0)) 9).0) (done _)))
