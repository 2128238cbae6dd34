-- ===== src/Server/HandleChunk/Parts.antt =====
-- What HandleChunk (pkg/server/handlers.go) does to the manager, part by part: for properties of the
-- limits and of the set of refused ids, which do not look into the buffers.
use xll_gen.Prelude.{
  ℕ, ◌+◌, inl, inr, List, ltb, length, erase, ◌==◌, nat_eq, Bool-cases, not, ◌&&◌,
}
use xll_gen.Server.Segments.{Segment, ChunkClaim, claim_new, claim_duplicate, claim_overlap}
use xll_gen.Server.ChunkManager.{
  ChunkManager, ChunkBuffer, Got, got, refused, effective_ttl, prune_stale, is_poisoned,
  poison_transfer, remove_chunk_buffer,
}
use xll_gen.Server.ChunkManager.Parts.{is_poisoned_part, get_chunk_buffer_part}
use xll_gen.Server.HandleChunk.{ChunkRequest, finish, arbitrate, receive, proceed, handle_chunk}

-- `P` before a call and `R` after it.
module _ (P R : ChunkManager → Type 0) (now : ℕ) (req : ChunkRequest)
    (cached : (c : ChunkManager) (m : List (ℕ × ChunkBuffer))
      → P c
      → P (record c { chunk_cache = m }))
    (pruned : (c : ChunkManager) → P c → P (prune_stale c now (effective_ttl c)))
    (forgotten : (c : ChunkManager) → P c → P (record c { poisoned = erase req.id c.poisoned }))
    (kept : (c : ChunkManager) → P c → R c)
    (poisons : (c : ChunkManager) → P c → R (poison_transfer c now req.id)) where
  finish_part : (cm : ChunkManager) (buf : ChunkBuffer) → P cm → R (finish cm req buf).0
  unfolding finish remove_chunk_buffer
  finish_part cm buf h =
      elim (Bool-cases ((buf.received == buf.total_size) && not buf.dispatched)) [
        | inl done ↦ rw done (kept _ (cached cm _ h))
        | inr more ↦ rw more (kept _ (cached cm _ h))
      ]

  arbitrate_part :
      (cm : ChunkManager) (buf : ChunkBuffer) (v : ChunkClaim × List Segment)
      → P cm
      → R (arbitrate cm now req buf v).0
  unfolding arbitrate
  arbitrate_part cm buf (claim_overlap, ss) h = poisons cm h
  arbitrate_part cm buf (claim_duplicate, ss) h = finish_part cm _ h
  arbitrate_part cm buf (claim_new, ss) h = finish_part cm _ h

  receive_part : (cm : ChunkManager) (buf : ChunkBuffer) → P cm → R (receive cm now req buf).0
  unfolding receive
  receive_part cm buf h =
      elim (Bool-cases (ltb (length buf.bytes) (req.offset + length req.bytes))) [
        | inl over ↦ rw over (poisons cm h)
        | inr fits ↦ elim (Bool-cases (length req.bytes == 0)) [
          | inl empty ↦ rw (fits, empty) (poisons cm h)
          | inr full ↦ rw (fits, full) (arbitrate_part cm buf _ h)
        ]
      ]

  proceed_part : (cm : ChunkManager) (answer : Got) → P cm → R (proceed cm now req answer).0
  unfolding proceed
  proceed_part cm (refused e) h = kept cm h
  proceed_part cm (got buf) h = receive_part cm buf h

  -- A call keeps what each of its parts keeps.
  pub handle_chunk_part : (cm : ChunkManager) → P cm → R (handle_chunk cm now req).0
  unfolding handle_chunk
  handle_chunk_part cm h =
      let h1 = is_poisoned_part P now req.id req.total_size cached pruned forgotten cm h in
      elim (Bool-cases (is_poisoned cm now req.id).1) [
        | inl bad ↦ rw bad (kept _ h1)
        | inr good ↦ rw good (
            proceed_part _ _
              (get_chunk_buffer_part P now req.id req.total_size cached pruned forgotten _ h1))
      ]
