-- ===== src/Server/Tests.antt =====
-- Concrete transfers through ChunkManager and HandleChunk (pkg/server).
use xll_gen.Prelude.{
  ℕ, zero, suc, ◌+◌, ◌*◌, ◌≤◌, ◌≡◌, refl, inl, inr, List, [], ◌∷◌, none, some, pos, negsuc, arith,
  All, map, lookup, drop, false, Bool-cases, subst, ◌==◌, nat_eq,
}
use xll_gen.Chunk.Split.{Tiles, joined}
use xll_gen.Server.Segments.{Segment, claim_segment}
use xll_gen.Server.Segments.Claims.{Says, Ascending, claim_segment_lem}
use xll_gen.Server.Segments.Coverage.{SliceOf}
use xll_gen.Server.ChunkManager.{
  ChunkManager, ChunkManagerConfig, ChunkBuffer, OutgoingChunk, new_from_config, get_chunk_buffer,
  effective_max_transfers, effective_max_bytes, effective_ttl,
}
use xll_gen.Server.ChunkManager.Bounds.{IsValid, IsBuffer, get_chunk_buffer-IsValid}
use xll_gen.Server.ChunkManager.Memory.{resident}
use xll_gen.Server.ChunkManager.Outgoing.{pull_all, get_next_chunk-Tiles}
use xll_gen.Server.HandleChunk.{ChunkRequest, refuse, handle_chunk}
use xll_gen.Server.HandleChunk.Step.{handle_chunk-IsValid}
use xll_gen.Server.HandleChunk.Exact.{Carry, Yields, IsHonest, handle_all, dispatch_exact}
use xll_gen.Server.HandleChunk.Transfer.{Idle}
use xll_gen.Server.HandleChunk.Delivery.{Timed, calls, answers, transfer_dispatched}
use xll_gen.Server.HandleChunk.Memory.{after_all, after_all-resident}
use xll_gen.Server.HandleChunk.Refusals.{violation_refused}

abbrev payload : List ℕ
payload = 10 ∷ 20 ∷ 30 ∷ []

abbrev config : ChunkManagerConfig
config = record {
  max_buffer_bytes = pos 100;
  buffer_ttl = pos 1000;
  max_concurrent_transfers = pos 2;
  max_poisoned_transfers = negsuc 0;
}

abbrev manager : ChunkManager
manager = record {
  chunk_cache = [];
  outgoing_chunks = [];
  poisoned = [];
  max_chunk_buffer_bytes = pos 100;
  chunk_buffer_ttl = pos 1000;
  max_transfers = pos 2;
  max_poison = negsuc 0;
}

manager-IsValid : IsValid manager
manager-IsValid = record {
  distinct = tt;
  bounded = omega arith;
  buffers = λ id b l. cc;
  poison_distinct = tt;
  poison_bounded = omega arith;
}

abbrev part : ℕ → List ℕ → ChunkRequest
part offset bytes = record {
  id = 7;
  total_size = 3;
  offset = offset;
  bytes = bytes;
  msg_type = 133;
}

-- The tail arrives first, then the head twice.
abbrev shuffled : List (ℕ × ChunkRequest)
shuffled = (1, part 2 (30 ∷ [])) ∷ (2, part 0 (10 ∷ 20 ∷ [])) ∷ (3, part 0 (10 ∷ 20 ∷ [])) ∷ []

tail-SliceOf : SliceOf payload 2 (30 ∷ [])
tail-SliceOf zero h = refl
tail-SliceOf (suc k) h = absurd (omega arith)

head-SliceOf : SliceOf payload 0 (10 ∷ 20 ∷ [])
head-SliceOf zero h = refl
head-SliceOf (suc zero) h = refl
head-SliceOf (suc (suc k)) h = absurd (omega arith)

tail-IsHonest : IsHonest 7 payload (part 2 (30 ∷ []))
tail-IsHonest = record { whole = refl; part = tail-SliceOf }

head-IsHonest : IsHonest 7 payload (part 0 (10 ∷ 20 ∷ []))
head-IsHonest = record { whole = refl; part = head-SliceOf }

shuffled-Carry : Carry 7 payload shuffled
shuffled-Carry = (
  (omega arith, λ e. tail-IsHonest),
  ((omega arith, λ e. head-IsHonest), ((omega arith, λ e. head-IsHonest), tt)),
)

dispatch_exact_example : Yields 7 payload (handle_all (new_from_config config) shuffled)
dispatch_exact_example = dispatch_exact 7 payload config shuffled shuffled-Carry

abbrev timed : List Timed
timed = (1, (0, 10 ∷ 20 ∷ [])) ∷ (5, (2, 30 ∷ [])) ∷ []

manager-Idle : Idle 7 133 3 manager
manager-Idle = record { clean = refl; capped = omega arith; new = refl; room = omega arith }

timed-Tiles : Tiles 2 payload 0 (map (λ t. t.1) timed)
timed-Tiles = (
  refl,
  omega arith,
  omega arith,
  omega arith,
  refl,
  (refl, omega arith, omega arith, omega arith, refl, omega arith),
)

transfer_dispatched_example :
    map (λ r. r.1) (handle_all manager (calls 7 133 payload timed)) ≡ answers 7 133 payload timed
transfer_dispatched_example =
    transfer_dispatched 7 133 payload 2 manager timed manager-IsValid manager-Idle (omega arith)
      (omega arith) timed-Tiles

handle_chunk-IsValid_example : IsValid (handle_chunk manager 1 (part 2 (30 ∷ []))).0
handle_chunk-IsValid_example =
    handle_chunk-IsValid manager 1 (part 2 (30 ∷ [])) (omega arith) manager-IsValid

opened-IsValid : IsValid (get_chunk_buffer manager 1 7 3).0
opened-IsValid = get_chunk_buffer-IsValid manager 1 7 3 manager-IsValid

after_all-resident_example :
    resident (after_all (new_from_config config) shuffled).chunk_cache
    ≤ effective_max_transfers (new_from_config config)
      * effective_max_bytes (new_from_config config)
after_all-resident_example =
    after_all-resident config shuffled (omega arith, (omega arith, (omega arith, tt)))

abbrev recorded : List Segment
recorded = record { offset = 0; length = 2 } ∷ record { offset = 5; length = 1 } ∷ []

claim_segment_lem_example :
    Says 2 3 recorded (claim_segment recorded 2 3) × Ascending 0 (claim_segment recorded 2 3).1
claim_segment_lem_example =
    claim_segment_lem recorded 2 3 (omega arith)
      (omega arith, omega arith, (omega arith, omega arith, tt))

abbrev outgoing : OutgoingChunk
outgoing = record { payload = payload; offset = 1; id = 9; msg_type = 133; last_access = 0 }

abbrev serving : ChunkManager
serving = record manager { outgoing_chunks = (9, outgoing) ∷ [] }

get_next_chunk-Tiles_example :
    let r = pull_all serving (1 ∷ 2 ∷ 3 ∷ []) 9 1 in
    Tiles 1 payload 1 r.1 × (joined r.1 ≡ drop 1 payload) × (lookup 9 r.0.outgoing_chunks ≡ none)
get_next_chunk-Tiles_example =
    get_next_chunk-Tiles serving (1 ∷ 2 ∷ 3 ∷ []) 9 1 outgoing refl (omega arith) (omega arith)
      (omega arith)

abbrev half_filled : ChunkBuffer
half_filled = record {
  bytes = 10 ∷ 20 ∷ 0 ∷ [];
  total_size = 3;
  received = 2;
  segments = record { offset = 0; length = 2 } ∷ [];
  dispatched = false;
  last_access = 1;
}

abbrev filling : ChunkManager
filling = record manager { chunk_cache = (7, half_filled) ∷ [] }

half_filled-IsBuffer : IsBuffer 100 half_filled
half_filled-IsBuffer = record {
  filled = record {
    sized = refl;
    positive = omega arith;
    capped = omega arith;
    ascending = (omega arith, omega arith, tt);
    within = (omega arith, tt);
    counted = refl;
    waiting = refl;
  };
  incomplete = omega arith;
}

filling-buffers :
    (id : ℕ) (b : ChunkBuffer) → lookup id filling.chunk_cache ≡ some b → IsBuffer 100 b
filling-buffers id b l = elim (Bool-cases (7 == id)) [
  | inl same ↦ let e : half_filled ≡ b = ground arith in subst (IsBuffer 100) e half_filled-IsBuffer
  | inr other ↦ absurd (ground arith)
]

filling-IsValid : IsValid filling
filling-IsValid = record {
  distinct = (refl, tt);
  bounded = omega arith;
  buffers = filling-buffers;
  poison_distinct = tt;
  poison_bounded = omega arith;
}

-- A chunk that overlaps the bytes 0 and 1 without repeating them.
-- A chunk of another transfer that is out of bounds, and one of the dropped transfer.
abbrev further : List (ℕ × ChunkRequest)
further = (3, record (part 9 (1 ∷ [])) { id = 8 }) ∷ (4, part 0 (1 ∷ [])) ∷ []

violation_refused_example :
    let r = handle_chunk filling 2 (part 1 (99 ∷ [])) in
    (r.1 ≡ refuse)
    × (lookup 7 r.0.chunk_cache ≡ none)
    × ((later : ℕ) (next : ChunkRequest)
        → later ≤ 2 + effective_ttl filling
        → next.id ≡ 7
        → handle_chunk r.0 later next ≡ (r.0, refuse))
    × All (λ a. a.0.id ≡ 7 → a.1 ≡ refuse) (handle_all r.0 further)
violation_refused_example =
    violation_refused filling 2 (part 1 (99 ∷ [])) half_filled further filling-IsValid (omega arith)
      refl refl refl (inr (inr ((λ a. ground arith), (λ r. ground arith))))
      (omega arith, (omega arith, tt)) (λ h. omega arith)
