-- ===== src/Server/HandleChunk.antt =====
-- HandleChunk, HandleAck, SendAckOrChunk and registerAckPullChunk of pkg/server/handlers.go. A call is
-- one step: what concurrent calls do between its two locks is not modelled. The fields of a request
-- are the decoded frame's; the bytes of an answer are FlatBuffers', a parameter. A response is the
-- bytes put into the response buffer, with the message type.
pub mod Parts
pub mod Step
pub mod Exact
pub mod Refusals
pub mod Refused
pub mod Transfer
pub mod Delivery
pub mod Memory
use xll_gen.Prelude.{
  ℕ, ◌+◌, ◌%◌, ◌^◌, Bool, true, false, not, ◌&&◌, ◌||◌, List, [], ◌∷◌, Option, none, some, ltb, leb,
  ◌==◌, nat_eq, if◌then◌else◌, length, take, copy_at, insert,
}
use xll_gen.MsgId.{msg_ack, msg_chunk, msg_system_error}
use xll_gen.Chunk.{budget, u32}
use xll_gen.Server.Segments.{
  Segment, ChunkClaim, claim_new, claim_duplicate, claim_overlap, claim_segment,
}
use xll_gen.Server.ChunkManager.{
  ChunkManager, ChunkBuffer, OutgoingChunk, Got, got, refused, NextChunk, is_poisoned,
  get_chunk_buffer, poison_transfer, remove_chunk_buffer, add_outgoing_chunk, remove_outgoing_chunk,
  get_next_chunk,
}

pub record ChunkRequest : Type 0 where
  pub id : ℕ
  pub total_size : ℕ
  pub offset : ℕ
  pub bytes : List ℕ
  pub msg_type : ℕ

-- What a call comes to: a system error, an acknowledgement, or the dispatch of the whole payload.
pub data Action : Type 0 where
  refuse : Action
  acknowledge : Action
  dispatch : List ℕ → ℕ → Action

-- From the recheck of `Received` on, with the buffer as the chunk left it.
unfoldable pub finish : ChunkManager → ChunkRequest → ChunkBuffer → ChunkManager × Action
finish cm req buf =
    let done = (buf.received == buf.total_size) && not buf.dispatched in
    let claimed = record buf { dispatched = done || buf.dispatched } in
    let stored = record cm { chunk_cache = insert req.id claimed cm.chunk_cache } in
    if done
    then (remove_chunk_buffer stored req.id, dispatch buf.bytes req.msg_type)
    else (stored, acknowledge)

abbrev pub written : ChunkRequest → ChunkBuffer → ChunkBuffer
written req buf = record buf {
  bytes = copy_at buf.bytes req.offset req.bytes;
  received = buf.received + length req.bytes;
}

-- The branches on the verdict of ClaimSegment, which comes with the segments.
pub arbitrate :
    ChunkManager
    → ℕ
    → ChunkRequest
    → ChunkBuffer
    → ChunkClaim × List Segment
    → ChunkManager × Action
arbitrate cm now req buf (claim_overlap, segments) = (poison_transfer cm now req.id, refuse)
arbitrate cm now req buf (claim_duplicate, segments) =
    finish cm req (record buf { segments = segments })
arbitrate cm now req buf (claim_new, segments) =
    finish cm req (written req (record buf { segments = segments }))

-- From the bounds check on.
unfoldable pub receive : ChunkManager → ℕ → ChunkRequest → ChunkBuffer → ChunkManager × Action
unfolding arbitrate
receive cm now req buf =
    if ltb (length buf.bytes) (req.offset + length req.bytes)
    then (poison_transfer cm now req.id, refuse)
    else if length req.bytes == 0
    then (poison_transfer cm now req.id, refuse)
    else arbitrate cm now req buf (claim_segment buf.segments req.offset (u32 (length req.bytes)))

pub proceed : ChunkManager → ℕ → ChunkRequest → Got → ChunkManager × Action
proceed cm now req (refused e) = (cm, refuse)
proceed cm now req (got buf) = receive cm now req buf

unfoldable pub handle_chunk : ChunkManager → ℕ → ChunkRequest → ChunkManager × Action
unfolding proceed
handle_chunk cm now req =
    let (cm1, bad) = is_poisoned cm now req.id in
    let (cm2, answer) = get_chunk_buffer cm1 now req.id req.total_size in
    if bad then (cm1, refuse) else proceed cm2 now req answer

pub record Response : Type 0 where
  pub bytes : List ℕ
  pub msg_type : ℕ

abbrev pub system_error : Response
system_error = record { bytes = []; msg_type = msg_system_error }

-- `capacity` is the length of the response buffer.
unfoldable pub send_ack_or_chunk : List ℕ → ℕ → ℕ → Response
send_ack_or_chunk payload capacity msg_type =
    if leb (length payload) capacity
    then record { bytes = payload; msg_type = msg_type }
    else system_error

-- The answer to a chunk; `ack` is the encoded acknowledgement of the transfer, and `run` the
-- dispatch function that the caller passes.
unfoldable pub chunk_response : (ℕ → List ℕ) → (List ℕ → ℕ → Response) → ℕ → ℕ → Action → Response
unfolding send_ack_or_chunk
chunk_response ack run id capacity refuse = system_error
chunk_response ack run id capacity acknowledge = send_ack_or_chunk (ack id) capacity msg_ack
chunk_response ack run id capacity (dispatch payload msg_type) = run payload msg_type

-- HandleAck: `encode` is the encoding of a frame; `none` is the empty answer `0, 0`.
unfoldable pub handle_ack :
    (ℕ → NextChunk → List ℕ) → ChunkManager → ℕ → ℕ → ℕ → ChunkManager × Option Response
unfolding send_ack_or_chunk
handle_ack encode cm now id capacity =
    let (cm', next) = get_next_chunk cm now id (budget capacity) in
    elim next [
      | none ↦ (cm', none)
      | some c ↦
          if length c.chunk == 0
          then (cm', none)
          else (cm', some (send_ack_or_chunk (encode id c) capacity msg_chunk))
    ]

-- registerAckPullChunk: `id` is the fresh transfer id. The offset is set before the chunk is
-- published.
unfoldable pub register_ack_pull_chunk :
    (ℕ → NextChunk → List ℕ)
    → ChunkManager
    → ℕ
    → ℕ
    → List ℕ
    → ℕ
    → ℕ
    → ChunkManager × Option Response
register_ack_pull_chunk encode cm now id payload capacity msg_type =
    let chunk_size = budget capacity in
    let size = if ltb (length payload) chunk_size then length payload else chunk_size in
    let out : OutgoingChunk = record {
      payload = payload;
      offset = size;
      id = id;
      msg_type = u32 msg_type;
      last_access = now;
    } in
    let published = add_outgoing_chunk cm id out in
    let frame = encode id (record {
      chunk = take size payload;
      msg_type = u32 msg_type;
      total_size = length payload;
      offset = 0;
    }) in
    if ltb capacity (length frame)
    then (remove_outgoing_chunk published id, none)
    else (published, some (record { bytes = frame; msg_type = msg_chunk }))
