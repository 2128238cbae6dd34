-- ===== src/Server/AsyncFlush/Ladder.antt =====
-- The retry ladder of pkg/server/async_batcher.go against the one of pkg/chunk/chunk.go.
use xll_gen.Prelude.{ℕ, zero, suc, ◌+◌, ◌≡◌, refl, inl, inr, List, Option, Option-cases}
use xll_gen.Chunk.{Frame, async_retry, retry_from, backoff, send_with_retry}
use xll_gen.Server.AsyncFlush.{message_retry_from, message_with_retry}

module _ {κ ν} {E : Type κ} {S : Type ν} (call : List ℕ → S → Option E × S) (frame : Frame) where
  message_retry_from-retry_from :
      (left i : ℕ) (payload : List ℕ) (s : S)
      → message_retry_from call payload left i s ≡ retry_from (λ f. call payload) frame 5 left i s
  unfolding message_retry_from retry_from backoff
  message_retry_from-retry_from zero i payload s = refl
  message_retry_from-retry_from (suc left) i payload s = elim (Option-cases (call payload s).0) [
    | inl sent ↦ rw (sent, message_retry_from, retry_from) refl
    | inr (e, failed) ↦
        rw (failed, message_retry_from, retry_from)
          (rw (message_retry_from-retry_from left (i + 1) payload (call payload s).1) refl)
  ]

-- The two ladders are one: retrying a whole message makes the same calls, with the same sleeps and the
-- same outcome, as the chunk sender's ladder under AsyncRetry makes for a frame.
pub message_with_retry_same {κ ν} :
    {E : Type κ} {S : Type ν} (call : List ℕ → S → Option E × S) (frame : Frame) (payload : List ℕ)
    (s : S)
    → message_with_retry call payload s ≡ send_with_retry (λ f. call payload) frame async_retry s
unfolding message_with_retry send_with_retry
message_with_retry_same call frame payload s =
    message_retry_from-retry_from call frame 9 0 payload s
