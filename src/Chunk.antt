-- ===== src/Chunk.antt =====
-- pkg/chunk/chunk.go: the chunk budget, the retry loop and the chunk-split loop that every
-- guest->host transfer goes through. A frame is modelled by its fields; its bytes are FlatBuffers'.
-- The transport is a parameter: a function that delivers a frame, over any state and any error.
pub mod Budget
pub mod Split
pub mod Retry
mod Tests
use xll_gen.Prelude.{
  ℕ, zero, suc, ◌+◌, ◌-◌, ◌*◌, ◌%◌, ◌^◌, Bool, List, [], ◌∷◌, ◌++◌, Option, none, some, ltb, ◌==◌,
  nat_eq, if◌then◌else◌, ℤ, pos, positive_or, length, take, drop,
}

abbrev pub slot_payload_size : ℕ
slot_payload_size = 1024 * 1024

abbrev pub half_slot_size : ℕ
half_slot_size = 524288

abbrev pub framing_overhead : ℕ
framing_overhead = 256

abbrev pub default_chunk_size : ℕ
default_chunk_size = 524032

-- `256 << 20`.
abbrev pub max_transfer_bytes : ℕ
max_transfer_bytes = 268435456

-- A capacity is a buffer's length, so it is not negative; `-` stops at 0, where the source goes
-- below 0 and then takes the floor 1.
unfoldable pub budget : ℕ → ℕ
budget buf_cap =
    let raw = buf_cap - framing_overhead in
    let capped = if ltb default_chunk_size raw then default_chunk_size else raw in
    if ltb capped 1 then 1 else capped

-- `none` is a client that is no `MaxRequestSizer`; `some c` is the capacity that it reports.
unfoldable pub guest_budget : Option ℤ → ℕ
unfolding budget
guest_budget none = default_chunk_size
guest_budget (some (pos c)) = if c == 0 then default_chunk_size else budget c
guest_budget (some _) = default_chunk_size

abbrev pub u32 : ℕ → ℕ
u32 n = n % 2 ^ 32

pub record Frame : Type 0 where
  pub id : ℕ
  pub total_size : ℕ
  pub offset : ℕ
  pub bytes : List ℕ
  pub msg_type : ℕ

abbrev pub build_frame : List ℕ → ℕ → ℕ → ℕ → ℕ → Frame
build_frame chunk_data id total_size offset msg_type = record {
  id = id;
  total_size = u32 total_size;
  offset = u32 offset;
  bytes = chunk_data;
  msg_type = msg_type;
}

-- A backoff of 0 stands for every value that is not positive.
pub record RetryPolicy : Type 0 where
  pub attempts : ℤ
  pub base_backoff : ℕ

abbrev pub no_retry : RetryPolicy
no_retry = record { attempts = pos 1; base_backoff = 0 }

-- In milliseconds.
abbrev pub async_retry : RetryPolicy
async_retry = record { attempts = pos 10; base_backoff = 5 }

pub record Sender : Type 0 where
  pub chunk_size : ℤ
  pub max_total_bytes : ℤ

abbrev pub effective_chunk_size : Sender → ℕ
effective_chunk_size s = positive_or default_chunk_size s.chunk_size

abbrev pub effective_max_total_bytes : Sender → ℕ
effective_max_total_bytes s = positive_or max_transfer_bytes s.max_total_bytes

-- `stuck` is the model's own: the split loop ran out of fuel.
pub data SendError {ℓ} (E : Type ℓ) : Type ℓ where
  transfer_too_large : ℕ → ℕ → SendError E
  chunk_failed : ℕ → E → SendError E
  stuck : SendError E

-- What a call leaves: its error, the transport's state, and the sleeps that it made.
pub record Outcome {ℓ κ} (E : Type ℓ) (S : Type κ) : Type (ℓ ⊔ κ) where
  pub error : Option E
  pub state : S
  pub slept : List ℕ

-- The sleep after failed round `i`: `BaseBackoff * time.Duration(1<<i)`, if the base is positive.
unfoldable pub backoff : ℕ → ℕ → List ℕ
backoff base i = if ltb 0 base then (base * 2 ^ i) ∷ [] else []

-- A round of the split loop: on success the rest follows, and a failure ends the transfer.
pub after_chunk {ℓ κ} :
    {E : Type ℓ} {S : Type κ} → ℕ → Outcome E S → Outcome (SendError E) S → Outcome (SendError E) S
after_chunk offset sent rest = elim sent.error [
  | none ↦ record { error = rest.error; state = rest.state; slept = sent.slept ++ rest.slept }
  | some e ↦ record { error = some (chunk_failed offset e); state = sent.state; slept = sent.slept }
]

module _ {ℓ κ} {E : Type ℓ} {S : Type κ} (deliver : Frame → S → Option E × S) where
  -- Round `i` of the loop, with `left` rounds to follow it.
  unfoldable pub retry_from : Frame → ℕ → ℕ → ℕ → S → Outcome E S
  retry_from frame base zero i s =
      let (err, s') = deliver frame s in record { error = err; state = s'; slept = [] }
  retry_from frame base (suc left) i s =
      let (err, s') = deliver frame s in
      let rest = retry_from frame base left (i + 1) s' in
      elim err [
        | none ↦ record { error = none; state = s'; slept = [] }
        | some e ↦ record {
          error = rest.error;
          state = rest.state;
          slept = backoff base i ++ rest.slept;
        }
      ]

  unfoldable pub send_with_retry : Frame → RetryPolicy → S → Outcome E S
  unfolding retry_from backoff
  send_with_retry frame policy s =
      retry_from frame policy.base_backoff (positive_or 1 policy.attempts - 1) 0 s

  -- The `for` loop of `Send`, at `offset`; each round sends at least one byte.
  pub send_from : List ℕ → ℕ → ℕ → ℕ → RetryPolicy → ℕ → ℕ → S → Outcome (SendError E) S
  unfolding send_with_retry
  send_from payload id msg_type cs policy zero offset s =
      if ltb offset (length payload)
      then record { error = some stuck; state = s; slept = [] }
      else record { error = none; state = s; slept = [] }
  send_from payload id msg_type cs policy (suc fuel) offset s =
      let total = length payload in
      let end = if ltb total (offset + cs) then total else offset + cs in
      let frame =
        build_frame (take (end - offset) (drop offset payload)) id total offset msg_type in
      let sent = send_with_retry frame policy s in
      let rest = send_from payload id msg_type cs policy fuel end sent.state in
      let round = after_chunk offset sent rest in
      if ltb offset total then round else record { error = none; state = s; slept = [] }

  pub send : Sender → List ℕ → ℕ → ℕ → RetryPolicy → S → Outcome (SendError E) S
  unfolding send_from
  send sender payload id msg_type policy s =
      let limit = effective_max_total_bytes sender in
      if length payload == 0
      then record { error = none; state = s; slept = [] }
      else if ltb limit (length payload)
      then record {
        error = some (transfer_too_large (length payload) limit);
        state = s;
        slept = [];
      }
      else send_from payload id msg_type (effective_chunk_size sender) policy (length payload) 0 s
