-- ===== src/Server/ChunkManager/Opening.antt =====
-- How GetChunkBuffer (pkg/server/manager.go) comes to its answer.
use xll_gen.Prelude.{
  false, true, ℕ, ◌≤◌, ◌<◌, ◌≡◌, refl, inl, inr, none, some, arith, ltb, leb, ◌==◌, nat_eq, ==_refl,
  length, lookup, Distinct, Bool-cases, Option-cases, lookup-keep_if-some, nat_beq_iff,
}
use xll_gen.Server.ChunkManager.{
  ChunkManager, ChunkBuffer, ChunkError, Got, got, refused, effective_max_bytes,
  effective_max_transfers, prune_stale, make_room, fresh_buffer, store, open_transfer,
  get_chunk_buffer, total_non_positive, total_too_large, too_many_transfers,
}

-- `cm'` has no other buffers than `cm`.
abbrev pub Trimmed : ChunkManager → ChunkManager → Type 0
Trimmed cm cm' =
    (k : ℕ) (b : ChunkBuffer) → lookup k cm'.chunk_cache ≡ some b → lookup k cm.chunk_cache ≡ some b

make_room-Trimmed :
    (cm : ChunkManager) (now : ℕ) → Distinct cm.chunk_cache → Trimmed cm (make_room cm now)
unfolding make_room prune_stale
make_room-Trimmed cm now d k b l =
    elim (Bool-cases (leb (effective_max_transfers cm) (length cm.chunk_cache))) [
      | inl full ↦ lookup-keep_if-some _ k b cm.chunk_cache (rw full at l) d
      | inr room ↦ rw room at l
    ]

module _ {ℓ} (Q : ChunkManager × Got → Type ℓ) (cm : ChunkManager) (now id total : ℕ)
    (distinct : Distinct cm.chunk_cache)
    (denied : (cm' : ChunkManager) (e : ChunkError) → Trimmed cm cm' → Q (cm', refused e))
    (resumed : (b : ChunkBuffer)
      → lookup id cm.chunk_cache ≡ some b
      → b.total_size ≡ total
      → Q (store cm id (record b { last_access = now })))
    (fresh : (cm' : ChunkManager)
      → Trimmed cm cm'
      → 0 < total
      → Q (store cm' id (fresh_buffer total now))) where
  open_transfer_cases : 0 < total → Q (open_transfer cm now id total)
  unfolding open_transfer
  open_transfer_cases p =
      let cm' = make_room cm now in
      elim (Bool-cases (leb (effective_max_transfers cm) (length cm'.chunk_cache))) [
        | inl full ↦ rw full (denied cm' too_many_transfers (make_room-Trimmed cm now distinct))
        | inr room ↦ rw room (fresh cm' (make_room-Trimmed cm now distinct) p)
      ]

  -- The call refuses, resumes the transfer with the same total, or opens it anew.
  pub get_chunk_buffer_cases : Q (get_chunk_buffer cm now id total)
  unfolding get_chunk_buffer
  get_chunk_buffer_cases = elim (Bool-cases (total == 0)) [
    | inl empty ↦ rw empty (denied cm total_non_positive (λ k b l. l))
    | inr full ↦ elim (Bool-cases (ltb (effective_max_bytes cm) total)) [
      | inl over ↦ rw (full, over) (denied cm total_too_large (λ k b l. l))
      | inr fits ↦ elim (Option-cases (lookup id cm.chunk_cache)) [
        | inl new ↦ rw (full, fits, new) (open_transfer_cases (ground arith))
        | inr (b, old) ↦ elim (Bool-cases (b.total_size == total)) [
          | inl same ↦
              rw (full, fits, old, same) (resumed b old ((nat_beq_iff b.total_size total).0 same))
          | inr other ↦ rw (full, fits, old, other) (fresh cm (λ k c l. l) (ground arith))
        ]
      ]
    ]
  ]

-- A buffer that is handed out is resident, and has the total that was asked for.
pub get_chunk_buffer-got :
    (cm : ChunkManager) (now id total : ℕ) (buf : ChunkBuffer)
    → Distinct cm.chunk_cache
    → (get_chunk_buffer cm now id total).1 ≡ got buf
    → (lookup id (get_chunk_buffer cm now id total).0.chunk_cache ≡ some buf)
      × (buf.total_size ≡ total)
get_chunk_buffer-got cm now id total buf d =
    get_chunk_buffer_cases
      (λ r. r.1 ≡ got buf → (lookup id r.0.chunk_cache ≡ some buf) × (buf.total_size ≡ total)) cm
      now id total d (λ cm' x t e. cc) (λ b old same e. ground (arith, ==_refl id))
      (λ cm' t p e. ground (arith, ==_refl id))

module _ (cm : ChunkManager) (now id total : ℕ) (positive : 0 < total)
    (capped : total ≤ effective_max_bytes cm) where
  pub get_chunk_buffer_resumes :
      (b : ChunkBuffer)
      → lookup id cm.chunk_cache ≡ some b
      → b.total_size ≡ total
      → get_chunk_buffer cm now id total ≡ store cm id (record b { last_access = now })
  unfolding get_chunk_buffer
  get_chunk_buffer_resumes b old same =
      let full : (total == 0) ≡ false = ground arith in
      let fits : ltb (effective_max_bytes cm) total ≡ false = ground arith in
      let t : (b.total_size == total) ≡ true = (nat_beq_iff b.total_size total).1 same in
      rw (full, fits, old, t) refl

  pub get_chunk_buffer_opens :
      lookup id cm.chunk_cache ≡ none
      → length cm.chunk_cache < effective_max_transfers cm
      → get_chunk_buffer cm now id total ≡ store cm id (fresh_buffer total now)
  unfolding get_chunk_buffer open_transfer make_room
  get_chunk_buffer_opens new room =
      let full : (total == 0) ≡ false = ground arith in
      let fits : ltb (effective_max_bytes cm) total ≡ false = ground arith in
      let r : leb (effective_max_transfers cm) (length cm.chunk_cache) ≡ false = ground arith in
      rw (full, fits, new, r) (rw r refl)
