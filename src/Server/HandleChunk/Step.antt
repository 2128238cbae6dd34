-- ===== src/Server/HandleChunk/Step.antt =====
-- HandleChunk (pkg/server/handlers.go) keeps the manager's invariant, and the rules by which the other
-- proofs take a call apart.
use xll_gen.Prelude.{
  ℕ, ◌+◌, ◌≤◌, ◌<◌, ◌^◌, ◌≡◌, refl, sym, ap, subst, ◌∙◌, inl, inr, Bool, ◌||◌, List, some, arith,
  ltb, ◌==◌, nat_eq, ==_refl, length, length-copy_at, lookup, insert, erase, Bool-cases, All,
}
use xll_gen.Chunk.{u32}
use xll_gen.Server.Segments.{
  Segment, ChunkClaim, claim_new, claim_duplicate, claim_overlap, claim_segment, end_of,
}
use xll_gen.Server.Segments.Claims.{Apart, Recorded, Says, bytes_in, claim_segment_lem}
use xll_gen.Server.Segments.Coverage.{bytes_in-le, claim_segment-All}
use xll_gen.Server.ChunkManager.{
  ChunkManager, ChunkBuffer, Got, got, refused, effective_max_bytes, is_poisoned, poison_transfer,
  remove_chunk_buffer,
}
use xll_gen.Server.ChunkManager.Bounds.{
  IsValid, IsBuffer, IsFilled, get_chunk_buffer-IsValid, put_buffer-IsValid, is_poisoned-IsValid,
  remove_chunk_buffer-IsValid,
}
use xll_gen.Server.ChunkManager.Opening.{get_chunk_buffer-got}
use xll_gen.Server.ChunkManager.Poison.{poison_transfer-IsValid}
use xll_gen.Server.HandleChunk.{
  ChunkRequest, Action, refuse, acknowledge, dispatch, finish, written, arbitrate, receive, proceed,
  handle_chunk,
}

-- A total is a uint32 on the wire.
abbrev pub IsWire : ChunkRequest → Type 0
IsWire req = req.total_size < 2 ^ 32

-- The buffer after a new range.
abbrev pub filled_with : ChunkRequest → ChunkBuffer → ChunkBuffer
filled_with req buf =
    written req
      (record buf { segments = (claim_segment buf.segments req.offset (length req.bytes)).1 })

-- A chunk that is in bounds, not empty, and apart from what is there.
pub record IsNew (req : ChunkRequest) (buf : ChunkBuffer) : Type 0 where
  pub fits : req.offset + length req.bytes ≤ length buf.bytes
  pub payload : 0 < length req.bytes
  pub apart : All (Apart req.offset (length req.bytes)) buf.segments

pub filled_with-IsFilled :
    (limit : ℕ) (req : ChunkRequest) (buf : ChunkBuffer)
    → IsFilled limit buf
    → IsNew req buf
    → bytes_in (claim_segment buf.segments req.offset (length req.bytes)).1
      ≡ bytes_in buf.segments + length req.bytes
    → IsFilled limit (filled_with req buf)
filled_with-IsFilled limit req buf k n sum = record {
  sized = length-copy_at buf.bytes req.offset req.bytes ∙ k.sized;
  positive = k.positive;
  capped = k.capped;
  ascending =
      (claim_segment_lem buf.segments req.offset (length req.bytes) n.payload k.ascending).1;
  within =
      claim_segment-All (λ s. end_of s ≤ buf.total_size) buf.segments req.offset (length req.bytes)
        k.within (omega (arith, n.fits, k.sized));
  counted = omega (arith, sum, k.counted);
  waiting = k.waiting;
}

pub accessed-IsFilled :
    (limit now : ℕ) (b : ChunkBuffer)
    → IsFilled limit b
    → IsFilled limit (record b { last_access = now })
accessed-IsFilled limit now b k = record {
  sized = k.sized;
  positive = k.positive;
  capped = k.capped;
  ascending = k.ascending;
  within = k.within;
  counted = k.counted;
  waiting = k.waiting;
}

module _ {ℓ} (Q : ChunkManager × Action → Type ℓ) (limit : ℕ) (cm : ChunkManager) (now : ℕ)
    (req : ChunkRequest) (buf : ChunkBuffer) (k : IsFilled limit buf)
    (rejected : Q (poison_transfer cm now req.id, refuse))
    (duplicate : Recorded req.offset (length req.bytes) buf.segments → Q (finish cm req buf))
    (new : IsNew req buf
      → IsFilled limit (filled_with req buf)
      → Q (finish cm req (filled_with req buf))) where
  arbitrate_cases :
      req.offset + length req.bytes ≤ length buf.bytes
      → 0 < length req.bytes
      → (v : ChunkClaim × List Segment)
      → v ≡ claim_segment buf.segments req.offset (length req.bytes)
      → Says req.offset (length req.bytes) buf.segments v
      → Q (arbitrate cm now req buf v)
  unfolding arbitrate
  arbitrate_cases fits p (claim_overlap, ss) e s = rejected
  arbitrate_cases fits p (claim_duplicate, ss) e (recorded, same) =
      subst (λ x. Q (finish cm req (record buf { segments = x }))) (sym same) (duplicate recorded)
  arbitrate_cases fits p (claim_new, ss) e (apart, sum) =
      let same : ss ≡ (claim_segment buf.segments req.offset (length req.bytes)).1 =
        ap (λ x. x.1) e in
      let n : IsNew req buf = record { fits = fits; payload = p; apart = apart } in
      subst (λ x. Q (finish cm req (written req (record buf { segments = x })))) (sym same)
        (new n (filled_with-IsFilled limit req buf k n (ap bytes_in (sym same) ∙ sum)))

  -- `receive` rejects, or goes on with the buffer as it was, for a range that is recorded, or with
  -- the chunk written, for a new one.
  pub receive_cases : buf.total_size < 2 ^ 32 → Q (receive cm now req buf)
  unfolding receive
  receive_cases wire = elim (Bool-cases (ltb (length buf.bytes) (req.offset + length req.bytes))) [
    | inl over ↦ rw over rejected
    | inr fits ↦ elim (Bool-cases (length req.bytes == 0)) [
      | inl empty ↦ rw (fits, empty) rejected
      | inr full ↦
          let small : u32 (length req.bytes) ≡ length req.bytes = ground (arith, k.sized) in
          let p : 0 < length req.bytes = ground arith in
          rw (fits, full)
            (rw small (
              arbitrate_cases (ground arith) p _ refl
                (claim_segment_lem buf.segments req.offset (length req.bytes) p k.ascending).0))
    ]
  ]

abbrev claimed_by : Bool → ChunkBuffer → ChunkBuffer
claimed_by done b = record b { dispatched = done || b.dispatched }

-- `finish` dispatches a complete buffer and drops it, and puts back one that is not.
pub finish_cases {ℓ} :
    (Q : ChunkManager × Action → Type ℓ) (limit : ℕ) (cm : ChunkManager) (req : ChunkRequest)
    (b : ChunkBuffer)
    → IsFilled limit b
    → (b.received ≡ b.total_size
        → Q (
          record cm { chunk_cache = erase req.id (erase req.id cm.chunk_cache) },
          dispatch b.bytes req.msg_type,
        ))
    → (IsBuffer limit b
        → Q (record cm { chunk_cache = insert req.id b cm.chunk_cache }, acknowledge))
    → Q (finish cm req b)
unfolding finish remove_chunk_buffer
finish_cases Q limit cm req b k complete partial = elim (Bool-cases (b.received == b.total_size)) [
  | inl full ↦ rw (full, k.waiting) (rw (==_refl req.id) (complete (ground arith)))
  | inr short ↦ rw (short) (
      partial (record {
        filled = k;
        incomplete = ground (
          arith,
          bytes_in-le b.total_size 0 b.segments k.ascending k.within (omega arith),
          k.counted,
        );
      }))
]

finish-IsValid :
    (cm : ChunkManager) (req : ChunkRequest) (old b : ChunkBuffer)
    → IsValid cm
    → lookup req.id cm.chunk_cache ≡ some old
    → IsFilled (effective_max_bytes cm) b
    → IsValid (finish cm req b).0
unfolding remove_chunk_buffer
finish-IsValid cm req old b v l k =
    finish_cases (λ r. IsValid r.0) (effective_max_bytes cm) cm req b k
      (λ e.
        remove_chunk_buffer-IsValid (remove_chunk_buffer cm req.id) req.id
          (remove_chunk_buffer-IsValid cm req.id v))
      (λ k'. put_buffer-IsValid cm req.id old b v l k')

proceed-IsValid :
    (cm : ChunkManager) (now : ℕ) (req : ChunkRequest) (answer : Got)
    → IsWire req
    → IsValid cm
    → ((b : ChunkBuffer)
        → answer ≡ got b
        → (lookup req.id cm.chunk_cache ≡ some b) × (b.total_size ≡ req.total_size))
    → IsValid (proceed cm now req answer).0
unfolding proceed
proceed-IsValid cm now req (refused e) wire v h = v
proceed-IsValid cm now req (got b) wire v h =
    let (l, total) = h b refl in
    let k = (v.buffers req.id b l).filled in
    receive_cases (λ r. IsValid r.0) (effective_max_bytes cm) cm now req b k
      (poison_transfer-IsValid cm now req.id v) (λ r. finish-IsValid cm req b b v l k)
      (λ n k'. finish-IsValid cm req b (filled_with req b) v l k') (omega arith)

-- Every chunk, of whatever framing, keeps the manager's invariant: the limits on transfers, bytes
-- and refused ids hold, every resident buffer is incomplete, and its received segments are in order,
-- in bounds, disjoint and counted.
pub handle_chunk-IsValid :
    (cm : ChunkManager) (now : ℕ) (req : ChunkRequest)
    → IsWire req
    → IsValid cm
    → IsValid (handle_chunk cm now req).0
unfolding handle_chunk
handle_chunk-IsValid cm now req wire v =
    let cm1 = (is_poisoned cm now req.id).0 in
    let v1 = is_poisoned-IsValid cm now req.id v in
    elim (Bool-cases (is_poisoned cm now req.id).1) [
      | inl bad ↦ rw bad v1
      | inr good ↦ rw good (
          proceed-IsValid _ now req _ wire
            (get_chunk_buffer-IsValid cm1 now req.id req.total_size v1)
            (λ b. get_chunk_buffer-got cm1 now req.id req.total_size b v1.distinct))
    ]
