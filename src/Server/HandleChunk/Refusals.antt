-- ===== src/Server/HandleChunk/Refusals.antt =====
-- How HandleChunk (pkg/server/handlers.go) treats a chunk that breaks the protocol.
use xll_gen.Prelude.{
  ℕ, ◌+◌, ◌^◌, ◌≤◌, ◌<◌, ◌≡◌, ◌⊎◌, refl, subst, ◌∙◌, inl, inr, List, none, some, arith, ltb, ◌==◌,
  nat_eq, length, lookup, Bool-cases, Option-cases, insert-Distinct, All,
}
use xll_gen.Chunk.{u32}
use xll_gen.Server.Segments.{Segment, ChunkClaim, claim_new, claim_duplicate, claim_overlap}
use xll_gen.Server.Segments.Claims.{Apart, Recorded, Says, claim_segment_lem}
use xll_gen.Server.ChunkManager.{
  ChunkManager, ChunkBuffer, effective_max_poisoned, effective_ttl, effective_max_bytes,
  poison_transfer, store,
}
use xll_gen.Server.ChunkManager.Bounds.{IsValid, IsFilled}
use xll_gen.Server.ChunkManager.Opening.{get_chunk_buffer_resumes}
use xll_gen.Server.ChunkManager.Poison.{poison_transfer_cache}
use xll_gen.Server.HandleChunk.Step.{accessed-IsFilled}
use xll_gen.Server.HandleChunk.Exact.{handle_all}
use xll_gen.Server.HandleChunk.Refused.{poison_transfer-refuses, poisoned_refuses}
use xll_gen.Server.HandleChunk.Transfer.{handle_chunk_clean}
use xll_gen.Server.HandleChunk.{ChunkRequest, refuse, arbitrate, receive, proceed, handle_chunk}

-- Out of the buffer's bounds, empty, or sharing bytes with a range that it does not repeat.
abbrev pub IsViolation : ChunkRequest → ChunkBuffer → Type 0
IsViolation req b =
    (length b.bytes < req.offset + length req.bytes)
    ⊎ (length req.bytes ≡ 0)
    ⊎ ((All (Apart req.offset (length req.bytes)) b.segments → ⊥)
        × (Recorded req.offset (length req.bytes) b.segments → ⊥))

arbitrate_violation :
    (cm : ChunkManager) (now : ℕ) (req : ChunkRequest) (b : ChunkBuffer)
    (v : ChunkClaim × List Segment)
    → Says req.offset (length req.bytes) b.segments v
    → (All (Apart req.offset (length req.bytes)) b.segments → ⊥)
    → (Recorded req.offset (length req.bytes) b.segments → ⊥)
    → arbitrate cm now req b v ≡ (poison_transfer cm now req.id, refuse)
unfolding arbitrate
arbitrate_violation cm now req b (claim_overlap, ss) s na nr = refl
arbitrate_violation cm now req b (claim_duplicate, ss) s na nr = absurd (nr s.0)
arbitrate_violation cm now req b (claim_new, ss) s na nr = absurd (na s.0)

receive_violation :
    (limit : ℕ) (cm : ChunkManager) (now : ℕ) (req : ChunkRequest) (b : ChunkBuffer)
    → IsFilled limit b
    → b.total_size < 2 ^ 32
    → IsViolation req b
    → receive cm now req b ≡ (poison_transfer cm now req.id, refuse)
unfolding receive
receive_violation limit cm now req b k wire v =
    elim (Bool-cases (ltb (length b.bytes) (req.offset + length req.bytes))) [
      | inl over ↦ rw over refl
      | inr fits ↦ elim (Bool-cases (length req.bytes == 0)) [
        | inl empty ↦ rw (fits, empty) refl
        | inr full ↦
            let small : u32 (length req.bytes) ≡ length req.bytes = ground (arith, k.sized) in
            let says =
              (claim_segment_lem b.segments req.offset (length req.bytes) (ground arith)
                k.ascending).0 in
            rw (fits, full)
              (rw small (elim v [
                | inl over ↦ absurd (ground arith)
                | inr (inl empty) ↦ absurd (ground arith)
                | inr (inr (na, nr)) ↦ arbitrate_violation cm now req b _ says na nr
              ]))
      ]
    ]

-- A chunk that breaks the protocol, for a resident transfer of a valid manager whose total it declares
-- (in 32 bits), and whose id is not refused yet: it runs out of the buffer's bounds, is empty, or shares
-- bytes with a range that it does not repeat. The call refuses it and drops the transfer; the next chunk
-- of the id, if it comes within the time to live, is refused too, whatever it holds, and changes nothing.
-- And take any further calls within the time to live, of any transfers: provided that, if there are any,
-- the set of refused ids has room for this entry and one more for each of them, so that no oldest entry
-- is evicted, every chunk of the id among them is refused.
pub violation_refused :
    (cm : ChunkManager) (now : ℕ) (req : ChunkRequest) (b : ChunkBuffer)
    (reqs : List (ℕ × ChunkRequest))
    → IsValid cm
    → req.total_size < 2 ^ 32
    → lookup req.id cm.chunk_cache ≡ some b
    → lookup req.id cm.poisoned ≡ none
    → b.total_size ≡ req.total_size
    → IsViolation req b
    → All (λ r. r.0 ≤ now + effective_ttl cm) reqs
    → (0 < length reqs → length cm.poisoned + length reqs < effective_max_poisoned cm)
    → let r = handle_chunk cm now req in
      (r.1 ≡ refuse)
      × (lookup req.id r.0.chunk_cache ≡ none)
      × ((later : ℕ) (next : ChunkRequest)
          → later ≤ now + effective_ttl cm
          → next.id ≡ req.id
          → handle_chunk r.0 later next ≡ (r.0, refuse))
      × All (λ a. a.0.id ≡ req.id → a.1 ≡ refuse) (handle_all r.0 reqs)
unfolding proceed
violation_refused cm now req b reqs v wire here clean same bad timely room =
    let k = (v.buffers req.id b here).filled in
    let b' = record b { last_access = now } in
    let cm' = (store cm req.id b').0 in
    let k' = accessed-IsFilled (effective_max_bytes cm) now b k in
    let total : req.total_size ≤ effective_max_bytes cm = omega (arith, same, k.capped) in
    let opened =
      get_chunk_buffer_resumes cm now req.id req.total_size (omega (arith, same, k.positive)) total
        b here same in
    let e : handle_chunk cm now req ≡ (poison_transfer cm' now req.id, refuse) =
      handle_chunk_clean cm now req b' clean opened
      ∙ receive_violation (effective_max_bytes cm) cm' now req b' k' (omega (arith, same, wire))
          bad in
    rw e (
      refl,
      elim (Option-cases (lookup req.id (poison_transfer cm' now req.id).chunk_cache)) [
        | inl gone ↦ gone
        | inr (c, l) ↦
            let distinct = insert-Distinct req.id b' cm.chunk_cache v.distinct in
            absurd ((poison_transfer_cache cm' now req.id req.id c distinct l).1 refl)
      ],
      λ later next h s.
          let refuses = poison_transfer-refuses cm' now later next h in
          subst
            (λ i.
              handle_chunk (poison_transfer cm' now i) later next
              ≡ (poison_transfer cm' now i, refuse))
            s refuses,
      poisoned_refuses cm cm' now req.id reqs refl timely room,
    )
