-- ===== src/Server/AsyncBatcher/Runs.antt =====
-- A concrete run of the async batcher (pkg/server/batcher.go): two results, a batch, and Stop during it.
use xll_gen.Prelude.{ℕ, ◌+◌, ◌≤◌, ◌≡◌, refl, true, false, [], ◌∷◌, ◌++◌, length}
use xll_gen.Server.AsyncBatcher.{
  AsyncBatcher, new_async_batcher, queue_result_check, queue_result_send, stop_latch, stop_signal,
  filling, flushing, checking, waiting, queue_capacity, max_batch_size, reports_drained,
  is_flushing, Steps, result_offered, result_sent, worker_started, checked_open, item_received,
  batch_ready, batch_flushed, done, then_step,
}
use xll_gen.Server.AsyncBatcher.Order.{in_hand, batcher_fifo}
use xll_gen.Server.AsyncBatcher.Shutdown.{stop_quiesces}

abbrev made : AsyncBatcher ℕ
made = new_async_batcher ℕ

abbrev offered : AsyncBatcher ℕ
offered = queue_result_check made 7

abbrev sent : AsyncBatcher ℕ
sent = queue_result_send offered 7 []

abbrev started : AsyncBatcher ℕ
started = record sent { phase = checking }

abbrev ready : AsyncBatcher ℕ
ready = record started { phase = waiting }

abbrev received : AsyncBatcher ℕ
received = record ready { phase = filling (7 ∷ []); queue = [] }

abbrev in_flush : AsyncBatcher ℕ
in_flush = record received { phase = flushing (7 ∷ []) }

abbrev stopping : AsyncBatcher ℕ
stopping = stop_signal (stop_latch in_flush)

abbrev flushed_once : AsyncBatcher ℕ
flushed_once = record stopping { phase = checking; flushed = 7 ∷ []; flushes = 1 }

run_up : Steps made in_flush
unfolding queue_result_check queue_result_send new_async_batcher
run_up = then_step _ _ _ (result_offered made 7) (
    then_step _ _ _ (result_sent offered 7 [] [] refl) (
      then_step _ _ _ (worker_started sent refl) (
        then_step _ _ _ (checked_open started refl refl) (
          then_step _ _ _ (item_received ready 7 [] refl refl)
            (then_step _ _ _ (batch_ready received (7 ∷ []) refl (λ l. refl)) (done _))))))

last_flush : Steps stopping flushed_once
unfolding queue_result_check queue_result_send new_async_batcher stop_latch stop_signal
last_flush = then_step _ _ _ (batch_flushed stopping (7 ∷ []) refl) (done _)

batcher_fifo_example :
    (in_flush.flushed ++ (in_hand in_flush.phase ++ in_flush.queue) ≡ in_flush.accepted)
    × (length in_flush.queue ≤ queue_capacity)
    × (length (in_hand in_flush.phase) ≤ max_batch_size)
batcher_fifo_example = batcher_fifo ℕ in_flush run_up

stopping-closed : stopping.stop ≡ true
unfolding stop_signal
stopping-closed = refl

stop_quiesces_example :
    (flushed_once.flushes ≤ stopping.flushes + 1)
    × (reports_drained stopping ≡ true
        → (is_flushing flushed_once.phase ≡ false) × (flushed_once.flushes ≡ stopping.flushes))
stop_quiesces_example = stop_quiesces stopping flushed_once stopping-closed last_flush
