-- ===== src/Server/AsyncFlush.antt =====
-- pkg/server/async_batcher.go: how a batch of async results is delivered to the host. The encoding of a
-- batch is FlatBuffers', a parameter; `err` is empty for a result that is no error. The transport is a
-- parameter too, over any state and any error, and so is the drawing of a random transfer id. What the
-- source only logs leaves no trace in the model.
pub mod Answers
pub mod Ladder
use xll_gen.Prelude.{
  ℕ, zero, suc, ◌+◌, ◌*◌, ◌/◌, ◌^◌, Bool, true, false, List, [], ◌∷◌, Option, none, some, ltb,
  if◌then◌else◌, ℤ, pos, length, take, drop,
}
use Prim.Native.String.{String}
use xll_gen.MsgId.{msg_batch_async_response}
use xll_gen.Chunk.{Frame, Sender, Outcome, guest_budget, async_retry, max_transfer_bytes, send}

pub record PendingAsyncResult {ℓ} (V : Type ℓ) : Type ℓ where
  pub handle : List ℕ
  pub value : V
  pub err : String

module _ {κ ν} {E : Type κ} {S : Type ν} (call : List ℕ → S → Option E × S) where
  -- `sendWithRetry` from round `i` on, with `left` rounds to follow it; 5 ms is the first sleep.
  pub message_retry_from : List ℕ → ℕ → ℕ → S → Outcome E S
  message_retry_from payload zero i s =
      let (err, s') = call payload s in record { error = err; state = s'; slept = [] }
  message_retry_from payload (suc left) i s =
      let (err, s') = call payload s in
      let rest = message_retry_from payload left (i + 1) s' in
      elim err [
        | none ↦ record { error = none; state = s'; slept = [] }
        | some e ↦ record {
          error = rest.error;
          state = rest.state;
          slept = (5 * 2 ^ i) ∷ rest.slept;
        }
      ]

  unfoldable pub message_with_retry : List ℕ → S → Outcome E S
  unfolding message_retry_from
  message_with_retry payload s = message_retry_from payload 9 0 s

abbrev pub async_sender : ℕ → Sender
async_sender chunk_size = record { chunk_size = pos chunk_size; max_total_bytes = pos 0 }

module _ {ℓ κ ν} {V : Type ℓ} {E : Type κ} {S : Type ν}
    (encode : List (PendingAsyncResult V) → List ℕ) (nil_value : V)
    (oversized_text : ℕ → ℕ → String) (call : List ℕ → S → Option E × S)
    (call_frame : Frame → S → Option E × S) (fresh : S → ℕ × S) (capacity : Option ℤ) where
  unfoldable pub send_chunked_async : List ℕ → S → S
  send_chunked_async payload s =
      let (id, s') = fresh s in
      let sender = async_sender (guest_budget capacity) in
      (send call_frame sender payload id msg_batch_async_response async_retry s').state

  -- A payload within the limit: in chunks, or in one slot.
  unfoldable pub transmit : List ℕ → S → S
  unfolding send_chunked_async message_with_retry
  transmit payload s =
      if ltb (guest_budget capacity) (length payload)
      then send_chunked_async payload s
      else (message_with_retry call payload s).state

  -- The result that answers a handle whose own result is too large.
  abbrev pub diagnostic : ℕ → PendingAsyncResult V → PendingAsyncResult V
  diagnostic limit r = record {
    handle = r.handle;
    value = nil_value;
    err = oversized_text (length (encode (r ∷ []))) limit;
  }

  -- `flushAsyncBatchBounded` and `flushOversizedAsyncBatch`, which call each other, in one; `rest` is
  -- what follows the batch's first result.
  pub flush_bounded : ℕ → ℕ → Bool → List (PendingAsyncResult V) → S → S
  flush_bounded zero limit substituted batch s = s
  flush_bounded (suc fuel) limit substituted [] s = s
  flush_bounded (suc fuel) limit substituted (r ∷ rest) s =
      let batch = r ∷ rest in
      let mid = length batch / 2 in
      let first = flush_bounded fuel limit false (take mid batch) s in
      let both = flush_bounded fuel limit false (drop mid batch) first in
      let answered = flush_bounded fuel limit true (diagnostic limit r ∷ []) s in
      if ltb limit (length (encode batch))
      then if ltb 1 (length batch) then both else if substituted then s else answered
      else transmit (encode batch) s

  -- `connected` says whether there is a client.
  unfoldable pub flush_async_batch : Bool → List (PendingAsyncResult V) → S → S
  unfolding flush_bounded
  flush_async_batch connected batch s =
      if connected then flush_bounded (length batch + 1) max_transfer_bytes false batch s else s
