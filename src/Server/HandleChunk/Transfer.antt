-- ===== src/Server/HandleChunk/Transfer.antt =====
-- HandleChunk (pkg/server/handlers.go) completes a transfer whose chunks arrive in order, the way the
-- split loop of pkg/chunk/chunk.go sends them.
use xll_gen.Prelude.{
  ℕ, ◌+◌, ◌^◌, ◌≤◌, ◌<◌, ◌≡◌, refl, sym, ap, subst, inl, inr, false, List, [], ◌∷◌, none, some,
  arith, ltb, ◌==◌, nat_eq, ==_refl, length, lookup, All,
}
use xll_gen.Chunk.{u32}
use xll_gen.Chunk.Split.{Piece}
use xll_gen.Server.Segments.{
  Segment, ChunkClaim, claim_new, claim_duplicate, claim_overlap, claim_segment,
}
use xll_gen.Server.Segments.Claims.{Apart, Recorded, Says, Within, bytes_in, claim_segment_lem}
use xll_gen.Server.Segments.Coverage.{claim_segment-All}
use xll_gen.Server.ChunkManager.{
  ChunkManager, ChunkBuffer, got, effective_max_bytes, effective_max_transfers, is_poisoned,
  get_chunk_buffer, fresh_buffer, store,
}
use xll_gen.Server.ChunkManager.Bounds.{IsFilled, fresh_buffer-IsBuffer}
use xll_gen.Server.ChunkManager.Opening.{get_chunk_buffer_resumes, get_chunk_buffer_opens}
use xll_gen.Server.HandleChunk.{
  ChunkRequest, Action, acknowledge, dispatch, finish, written, arbitrate, receive, proceed,
  handle_chunk,
}
use xll_gen.Server.HandleChunk.Step.{
  IsNew, filled_with, filled_with-IsFilled, finish_cases, accessed-IsFilled,
}

-- A range apart from the recorded ones is not among them.
Apart-Recorded :
    (offset len : ℕ) (ss : List Segment)
    → 0 < len
    → All (Apart offset len) ss
    → Recorded offset len ss
    → ⊥
Apart-Recorded offset len [] p a r = r
Apart-Recorded offset len (s ∷ ss) p a (inl e) = ground arith
Apart-Recorded offset len (s ∷ ss) p a (inr r) = Apart-Recorded offset len ss p a.1 r

module _ (limit : ℕ) (cm : ChunkManager) (now : ℕ) (req : ChunkRequest) (b : ChunkBuffer)
    (k : IsFilled limit b) (n : IsNew req b) where
  arbitrate_new :
      (v : ChunkClaim × List Segment)
      → v ≡ claim_segment b.segments req.offset (length req.bytes)
      → Says req.offset (length req.bytes) b.segments v
      → (arbitrate cm now req b v ≡ finish cm req (filled_with req b))
        × (bytes_in v.1 ≡ bytes_in b.segments + length req.bytes)
  unfolding arbitrate
  arbitrate_new (claim_overlap, ss) e s = absurd (s.0 n.apart)
  arbitrate_new (claim_duplicate, ss) e s =
      absurd (Apart-Recorded req.offset (length req.bytes) b.segments n.payload n.apart s.0)
  arbitrate_new (claim_new, ss) e s =
      (ap (λ x. finish cm req (written req (record b { segments = x.1 }))) e, s.1)

  -- A new range is taken: the branch of the verdict is never one of the two others.
  receive_new :
      b.total_size < 2 ^ 32
      → (receive cm now req b ≡ finish cm req (filled_with req b))
        × IsFilled limit (filled_with req b)
  unfolding receive
  receive_new wire =
      let fits : ltb (length b.bytes) (req.offset + length req.bytes) ≡ false =
        ground (arith, n.fits) in
      let full : (length req.bytes == 0) ≡ false = ground (arith, n.payload) in
      let small : u32 (length req.bytes) ≡ length req.bytes = ground (arith, n.fits, k.sized) in
      let a =
        arbitrate_new _ refl
          (claim_segment_lem b.segments req.offset (length req.bytes) n.payload k.ascending).0 in
      (rw (fits, full) (rw small (a.0)), filled_with-IsFilled limit req b k n a.1)

is_poisoned_clean :
    (cm : ChunkManager) (now id : ℕ)
    → lookup id cm.poisoned ≡ none
    → is_poisoned cm now id ≡ (cm, false)
unfolding is_poisoned
is_poisoned_clean cm now id h = rw (h, is_poisoned) refl

pub handle_chunk_clean :
    (cm : ChunkManager) (now : ℕ) (req : ChunkRequest) (b : ChunkBuffer)
    → lookup req.id cm.poisoned ≡ none
    → get_chunk_buffer cm now req.id req.total_size ≡ store cm req.id b
    → handle_chunk cm now req ≡ proceed (store cm req.id b).0 now req (got b)
unfolding handle_chunk
handle_chunk_clean cm now req b clean e = rw (is_poisoned_clean cm now req.id clean) (rw e refl)

module _ (x mt total : ℕ) where
  -- `lo` bytes of transfer `x` have arrived, all below `lo`.
  record Reached (lo : ℕ) (b : ChunkBuffer) : Type 0 where
    whole : b.total_size ≡ total
    so_far : b.received ≡ lo
    below : Within lo b.segments

  -- The transfer has begun and can go on.
  pub record Going (lo : ℕ) (cm : ChunkManager) : Type 0 where
    clean : lookup x cm.poisoned ≡ none
    capped : total ≤ effective_max_bytes cm
    buffer : ChunkBuffer
    here : lookup x cm.chunk_cache ≡ some buffer
    filled : IsFilled (effective_max_bytes cm) buffer
    reached : Reached lo buffer

  abbrev pub request : Piece → ChunkRequest
  request (o, d) = record { id = x; total_size = total; offset = o; bytes = d; msg_type = mt }

  Within-IsNew :
      (limit lo : ℕ) (d : List ℕ) (b : ChunkBuffer)
      → IsFilled limit b
      → Reached lo b
      → 0 < length d
      → lo + length d ≤ total
      → IsNew (request (lo, d)) b
  Within-IsNew limit lo d b k r p h = record {
    fits = omega (arith, k.sized, r.whole);
    payload = p;
    apart = all_apart b.segments r.below;
  }
    where
      all_apart : (ss : List Segment) → Within lo ss → All (Apart lo (length d)) ss
      all_apart [] w = tt
      all_apart (s ∷ ss) w = (inr w.0, all_apart ss w.1)

  Within-mono : (lo hi : ℕ) (ss : List Segment) → lo ≤ hi → Within lo ss → Within hi ss
  Within-mono lo hi [] h w = tt
  Within-mono lo hi (s ∷ ss) h w = (omega (arith, w.0), Within-mono lo hi ss h w.1)

  filled_with-Reached :
      (lo : ℕ) (d : List ℕ) (b : ChunkBuffer)
      → Reached lo b
      → Reached (lo + length d) (filled_with (request (lo, d)) b)
  filled_with-Reached lo d b r = record {
    whole = r.whole;
    so_far = ap (λ n. n + length d) r.so_far;
    below =
        claim_segment-All _ b.segments lo (length d)
          (Within-mono lo (lo + length d) b.segments (omega arith) r.below) (omega arith);
  }

  -- What the chunk at `lo` comes to.
  abbrev pub Advances : ℕ → List ℕ → ChunkManager × Action → Type 0
  Advances lo d r =
      (lo + length d < total → (r.1 ≡ acknowledge) × Going (lo + length d) r.0)
      × (total ≤ lo + length d → (bytes : List ℕ) × (r.1 ≡ dispatch bytes mt))

  proceed-Advances :
      (lo : ℕ) (d : List ℕ) (cm : ChunkManager) (now : ℕ) (b : ChunkBuffer)
      → total < 2 ^ 32
      → 0 < length d
      → lo + length d ≤ total
      → lookup x cm.poisoned ≡ none
      → total ≤ effective_max_bytes cm
      → lookup x cm.chunk_cache ≡ some b
      → IsFilled (effective_max_bytes cm) b
      → Reached lo b
      → Advances lo d (proceed cm now (request (lo, d)) (got b))
  unfolding proceed
  proceed-Advances lo d cm now b wire p h clean capped here k r =
      let req = request (lo, d) in
      let n = Within-IsNew (effective_max_bytes cm) lo d b k r p h in
      let (e, k') =
        receive_new (effective_max_bytes cm) cm now req b k n (omega (arith, r.whole)) in
      let r' = filled_with-Reached lo d b r in
      rw e (
        finish_cases (Advances lo d) (effective_max_bytes cm) cm req (filled_with req b) k'
          (λ full. (λ short. absurd (omega (arith, full, r'.whole, r'.so_far)), λ done. (_, refl)))
          (λ k''. (
            λ short. (
              refl,
              record {
                clean = clean;
                capped = capped;
                buffer = filled_with req b;
                here = ground (arith, ==_refl x);
                filled = k';
                reached = r';
              },
            ),
            λ done. absurd (omega (arith, k''.incomplete, r'.whole, r'.so_far)),
          )))

  -- The transfer can begin: the id is unknown, and there is room.
  pub record Idle (cm : ChunkManager) : Type 0 where
    pub clean : lookup x cm.poisoned ≡ none
    pub capped : total ≤ effective_max_bytes cm
    pub new : lookup x cm.chunk_cache ≡ none
    pub room : length cm.chunk_cache < effective_max_transfers cm

  handle_chunk_opened :
      (lo : ℕ) (d : List ℕ) (cm : ChunkManager) (now : ℕ) (b : ChunkBuffer)
      → lookup x cm.poisoned ≡ none
      → get_chunk_buffer cm now x total ≡ store cm x b
      → Advances lo d (proceed (store cm x b).0 now (request (lo, d)) (got b))
      → Advances lo d (handle_chunk cm now (request (lo, d)))
  handle_chunk_opened lo d cm now b clean e a =
      subst (Advances lo d) (sym (handle_chunk_clean cm now (request (lo, d)) b clean e)) a

  pub Going-Advances :
      (lo : ℕ) (d : List ℕ) (cm : ChunkManager) (now : ℕ)
      → total < 2 ^ 32
      → 0 < length d
      → lo + length d ≤ total
      → Going lo cm
      → Advances lo d (handle_chunk cm now (request (lo, d)))
  Going-Advances lo d cm now wire p h g =
      let b = record (g.buffer) { last_access = now } in
      let k = accessed-IsFilled (effective_max_bytes cm) now g.buffer g.filled in
      let r : Reached lo b = record {
        whole = g.reached.whole;
        so_far = g.reached.so_far;
        below = g.reached.below;
      } in
      handle_chunk_opened lo d cm now b g.clean
        (get_chunk_buffer_resumes cm now x total (omega arith) g.capped g.buffer g.here
          g.reached.whole)
        (proceed-Advances lo d (store cm x b).0 now b wire p h g.clean g.capped
          (ground (arith, ==_refl x)) k r)

  pub Idle-Advances :
      (d : List ℕ) (cm : ChunkManager) (now : ℕ)
      → total < 2 ^ 32
      → 0 < length d
      → length d ≤ total
      → Idle cm
      → Advances 0 d (handle_chunk cm now (request (0, d)))
  Idle-Advances d cm now wire p h i =
      let b = fresh_buffer total now in
      let r : Reached 0 b = record { whole = refl; so_far = refl; below = tt } in
      handle_chunk_opened 0 d cm now b i.clean
        (get_chunk_buffer_opens cm now x total (omega arith) i.capped i.new i.room)
        (proceed-Advances 0 d (store cm x b).0 now b wire p (omega (arith, h)) i.clean i.capped
          (ground (arith, ==_refl x))
          (fresh_buffer-IsBuffer (effective_max_bytes cm) total now (omega arith) i.capped).filled
          r)
