-- ===== src/Server/ChunkManager.antt =====
-- ChunkManager of pkg/server/manager.go and the buffers of pkg/server/types.go. A method returns the
-- new manager; the clock's reading is an argument, one for each call. The two mutexes make each
-- method one step. A map's iteration order is that of the list.
pub mod Bounds
pub mod Memory
pub mod Poison
pub mod Opening
pub mod Parts
pub mod Outgoing
use xll_gen.Prelude.{
  ℕ, suc, ◌+◌, ◌-◌, ◌*◌, ◌%◌, Bool, true, false, not, List, [], ◌∷◌, Option, none, some, ltb, leb,
  ◌==◌, nat_eq, if◌then◌else◌, ℤ, pos, positive_or, length, take, drop, replicate, lookup, insert,
  erase, keep_if,
}
use xll_gen.Server.Segments.{Segment}

-- In bytes, and in nanoseconds.
abbrev pub default_max_chunk_buffer_bytes : ℕ
default_max_chunk_buffer_bytes = 268435456

abbrev pub default_chunk_buffer_ttl : ℕ
default_chunk_buffer_ttl = 60_000_000_000

abbrev pub default_max_concurrent_transfers : ℕ
default_max_concurrent_transfers = 1024

abbrev pub default_max_poisoned_transfers : ℕ
default_max_poisoned_transfers = 1024

pub record ChunkBuffer : Type 0 where
  pub bytes : List ℕ
  pub total_size : ℕ
  pub received : ℕ
  pub segments : List Segment
  pub dispatched : Bool
  pub last_access : ℕ

pub record OutgoingChunk : Type 0 where
  pub payload : List ℕ
  pub offset : ℕ
  pub id : ℕ
  pub msg_type : ℕ
  pub last_access : ℕ

pub record ChunkManagerConfig : Type 0 where
  pub max_buffer_bytes : ℤ
  pub buffer_ttl : ℤ
  pub max_concurrent_transfers : ℤ
  pub max_poisoned_transfers : ℤ

pub record ChunkManager : Type 0 where
  pub chunk_cache : List (ℕ × ChunkBuffer)
  pub outgoing_chunks : List (ℕ × OutgoingChunk)
  pub poisoned : List (ℕ × ℕ)
  pub max_chunk_buffer_bytes : ℤ
  pub chunk_buffer_ttl : ℤ
  pub max_transfers : ℤ
  pub max_poison : ℤ

pub data ChunkError : Type 0 where
  total_non_positive total_too_large too_many_transfers : ChunkError

unfoldable pub new_from_config : ChunkManagerConfig → ChunkManager
new_from_config c = record {
  chunk_cache = [];
  outgoing_chunks = [];
  poisoned = [];
  max_chunk_buffer_bytes = pos (positive_or default_max_chunk_buffer_bytes c.max_buffer_bytes);
  chunk_buffer_ttl = c.buffer_ttl;
  max_transfers = c.max_concurrent_transfers;
  max_poison = c.max_poisoned_transfers;
}

abbrev pub effective_ttl : ChunkManager → ℕ
effective_ttl cm = positive_or default_chunk_buffer_ttl cm.chunk_buffer_ttl

abbrev pub effective_max_transfers : ChunkManager → ℕ
effective_max_transfers cm = positive_or default_max_concurrent_transfers cm.max_transfers

abbrev pub effective_max_poisoned : ChunkManager → ℕ
effective_max_poisoned cm = positive_or default_max_poisoned_transfers cm.max_poison

abbrev pub effective_max_bytes : ChunkManager → ℕ
effective_max_bytes cm = positive_or default_max_chunk_buffer_bytes cm.max_chunk_buffer_bytes

-- `now.Sub(at) > ttl`.
abbrev pub is_stale : ℕ → ℕ → ℕ → Bool
is_stale now ttl at = ltb ttl (now - at)

unfoldable pub prune_stale : ChunkManager → ℕ → ℕ → ChunkManager
prune_stale cm now ttl = record cm {
  chunk_cache = keep_if (λ id buf. not (is_stale now ttl buf.last_access)) cm.chunk_cache;
  poisoned = keep_if (λ id at. not (is_stale now ttl at)) cm.poisoned;
}

unfoldable pub run_cleanup_once : ChunkManager → ℕ → ℕ → ChunkManager
unfolding prune_stale
run_cleanup_once cm now ttl =
    let pruned = prune_stale cm now ttl in
    record pruned {
      outgoing_chunks =
          keep_if (λ id out. not (is_stale now ttl out.last_access)) pruned.outgoing_chunks;
    }

unfoldable pub sweep : ChunkManager → ℕ → ChunkManager
unfolding run_cleanup_once
sweep cm now = run_cleanup_once cm now (effective_ttl cm)

pub data Got : Type 0 where
  got : ChunkBuffer → Got
  refused : ChunkError → Got

abbrev pub fresh_buffer : ℕ → ℕ → ChunkBuffer
fresh_buffer total now = record {
  bytes = replicate total 0;
  total_size = total;
  received = 0;
  segments = [];
  dispatched = false;
  last_access = now;
}

abbrev pub store : ChunkManager → ℕ → ChunkBuffer → ChunkManager × Got
store cm id buf = (record cm { chunk_cache = insert id buf cm.chunk_cache }, got buf)

-- At the bound the stale transfers are dropped.
make_room : ChunkManager → ℕ → ChunkManager
unfolding prune_stale
make_room cm now =
    if leb (effective_max_transfers cm) (length cm.chunk_cache)
    then prune_stale cm now (effective_ttl cm)
    else cm

open_transfer : ChunkManager → ℕ → ℕ → ℕ → ChunkManager × Got
unfolding make_room
open_transfer cm now id total =
    let cm' = make_room cm now in
    if leb (effective_max_transfers cm) (length cm'.chunk_cache)
    then (cm', refused too_many_transfers)
    else store cm' id (fresh_buffer total now)

unfoldable pub get_chunk_buffer : ChunkManager → ℕ → ℕ → ℕ → ChunkManager × Got
unfolding open_transfer
get_chunk_buffer cm now id total =
    if total == 0
    then (cm, refused total_non_positive)
    else if ltb (effective_max_bytes cm) total
    then (cm, refused total_too_large)
    else elim (lookup id cm.chunk_cache) [
      | none ↦ open_transfer cm now id total
      | some buf ↦
          if buf.total_size == total
          then store cm id (record buf { last_access = now })
          else store cm id (fresh_buffer total now)
    ]

unfoldable pub remove_chunk_buffer : ChunkManager → ℕ → ChunkManager
remove_chunk_buffer cm id = record cm { chunk_cache = erase id cm.chunk_cache }

-- The oldest entry of the poison set, the first of them in the map's order.
oldest_from : ℕ → ℕ → List (ℕ × ℕ) → ℕ
oldest_from id at [] = id
oldest_from id at ((j, t) ∷ m) =
    let older = oldest_from j t m in
    let same = oldest_from id at m in if ltb t at then older else same

unfoldable pub drop_oldest : List (ℕ × ℕ) → List (ℕ × ℕ)
unfolding oldest_from
drop_oldest [] = []
drop_oldest ((id, at) ∷ m) = erase (oldest_from id at m) ((id, at) ∷ m)

unfoldable pub make_poison_room : ChunkManager → ℕ → ChunkManager
unfolding prune_stale
make_poison_room cm now =
    if leb (effective_max_poisoned cm) (length cm.poisoned)
    then prune_stale cm now (effective_ttl cm)
    else cm

unfoldable pub poison_transfer : ChunkManager → ℕ → ℕ → ChunkManager
poison_transfer cm now id =
    let cm' = make_poison_room (record cm { chunk_cache = erase id cm.chunk_cache }) now in
    let kept =
      if leb (effective_max_poisoned cm) (length cm'.poisoned)
      then drop_oldest cm'.poisoned
      else cm'.poisoned in
    record cm' { poisoned = insert id now kept }

-- An expired entry is dropped, so that the id can be used again.
unfoldable pub is_poisoned : ChunkManager → ℕ → ℕ → ChunkManager × Bool
is_poisoned cm now id = elim (lookup id cm.poisoned) [
  | none ↦ (cm, false)
  | some at ↦
      if is_stale now (effective_ttl cm) at
      then (record cm { poisoned = erase id cm.poisoned }, false)
      else (cm, true)
]

unfoldable pub add_outgoing_chunk : ChunkManager → ℕ → OutgoingChunk → ChunkManager
add_outgoing_chunk cm id chunk = record cm { outgoing_chunks = insert id chunk cm.outgoing_chunks }

unfoldable pub remove_outgoing_chunk : ChunkManager → ℕ → ChunkManager
remove_outgoing_chunk cm id = record cm { outgoing_chunks = erase id cm.outgoing_chunks }

pub record NextChunk : Type 0 where
  pub chunk : List ℕ
  pub msg_type : ℕ
  pub total_size : ℕ
  pub offset : ℕ

-- The next `max_size` bytes of an outgoing transfer, `none` where the source says not found.
unfoldable pub get_next_chunk : ChunkManager → ℕ → ℕ → ℕ → ChunkManager × Option NextChunk
unfolding remove_outgoing_chunk
get_next_chunk cm now id max_size = elim (lookup id cm.outgoing_chunks) [
  | none ↦ (cm, none)
  | some out ↦
      let remaining = length out.payload - out.offset in
      let size = if ltb remaining max_size then remaining else max_size in
      let end = out.offset + size in
      let moved = record out { offset = end; last_access = now } in
      if size == 0 then (remove_outgoing_chunk cm id, none) else (
        if leb (length out.payload) end
            then remove_outgoing_chunk cm id
            else record cm { outgoing_chunks = insert id moved cm.outgoing_chunks },
        some (record {
          chunk = take size (drop out.offset out.payload);
          msg_type = out.msg_type;
          total_size = length out.payload;
          offset = out.offset;
        }),
      )
]
