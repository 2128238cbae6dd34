-- ===== src/Server/ChunkManager/Parts.antt =====
-- What GetChunkBuffer and IsPoisoned (pkg/server/manager.go) do to the manager, part by part: for
-- properties of the limits and of the set of refused ids, which do not look into the buffers.
use xll_gen.Prelude.{
  ℕ, inl, inr, List, leb, ltb, length, lookup, erase, ◌==◌, nat_eq, Bool-cases, Option-cases,
}
use xll_gen.Server.ChunkManager.{
  ChunkManager, ChunkBuffer, effective_max_transfers, effective_max_bytes, effective_ttl, is_stale,
  prune_stale, make_room, open_transfer, get_chunk_buffer, is_poisoned,
}

module _ (P : ChunkManager → Type 0) (now id total : ℕ)
    (cached : (c : ChunkManager) (m : List (ℕ × ChunkBuffer))
      → P c
      → P (record c { chunk_cache = m }))
    (pruned : (c : ChunkManager) → P c → P (prune_stale c now (effective_ttl c)))
    (forgotten : (c : ChunkManager) → P c → P (record c { poisoned = erase id c.poisoned })) where
  pub is_poisoned_part : (cm : ChunkManager) → P cm → P (is_poisoned cm now id).0
  unfolding is_poisoned
  is_poisoned_part cm h = elim (Option-cases (lookup id cm.poisoned)) [
    | inl new ↦ rw (new, is_poisoned) h
    | inr (at, bad) ↦ elim (Bool-cases (is_stale now (effective_ttl cm) at)) [
      | inl old ↦ rw (bad, is_poisoned) (rw old (forgotten cm h))
      | inr recent ↦ rw (bad, is_poisoned) (rw recent h)
    ]
  ]

  make_room_part : (cm : ChunkManager) → P cm → P (make_room cm now)
  unfolding make_room
  make_room_part cm h =
      elim (Bool-cases (leb (effective_max_transfers cm) (length cm.chunk_cache))) [
        | inl full ↦ rw full (pruned cm h)
        | inr room ↦ rw room h
      ]

  open_transfer_part : (cm : ChunkManager) → P cm → P (open_transfer cm now id total).0
  unfolding open_transfer
  open_transfer_part cm h =
      let h' = make_room_part cm h in
      elim (Bool-cases (leb (effective_max_transfers cm) (length (make_room cm now).chunk_cache))) [
        | inl full ↦ rw full h'
        | inr room ↦ rw room (cached (make_room cm now) _ h')
      ]

  pub get_chunk_buffer_part : (cm : ChunkManager) → P cm → P (get_chunk_buffer cm now id total).0
  unfolding get_chunk_buffer
  get_chunk_buffer_part cm h = elim (Bool-cases (total == 0)) [
    | inl empty ↦ rw empty h
    | inr full ↦ elim (Bool-cases (ltb (effective_max_bytes cm) total)) [
      | inl over ↦ rw (full, over) h
      | inr fits ↦ elim (Option-cases (lookup id cm.chunk_cache)) [
        | inl new ↦ rw (full, fits, new) (open_transfer_part cm h)
        | inr (b, old) ↦ elim (Bool-cases (b.total_size == total)) [
          | inl same ↦ rw (full, fits, old, same) (cached cm _ h)
          | inr other ↦ rw (full, fits, old, other) (cached cm _ h)
        ]
      ]
    ]
  ]
