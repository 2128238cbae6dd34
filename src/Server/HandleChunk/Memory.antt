-- ===== src/Server/HandleChunk/Memory.antt =====
-- The memory that any run of HandleChunk (pkg/server/handlers.go) takes for incoming transfers.
use xll_gen.Prelude.{
  ℕ, ◌*◌, ◌≤◌, ◌≡◌, refl, subst, ◌∙◌, inl, inr, List, [], ◌∷◌, All, leb, length, Bool-cases,
}
use xll_gen.Server.ChunkManager.{
  ChunkManager, ChunkManagerConfig, effective_max_transfers, effective_max_bytes,
  effective_max_poisoned, effective_ttl, new_from_config, prune_stale, make_poison_room,
  poison_transfer,
}
use xll_gen.Server.ChunkManager.Bounds.{IsValid, new_from_config-IsValid}
use xll_gen.Server.ChunkManager.Memory.{resident, resident-le_caps}
use xll_gen.Server.HandleChunk.{ChunkRequest, handle_chunk}
use xll_gen.Server.HandleChunk.Parts.{handle_chunk_part}
use xll_gen.Server.HandleChunk.Step.{IsWire, handle_chunk-IsValid}

-- What a manager is configured with.
pub record Limits : Type 0 where
  pub bytes : ℕ
  pub transfers : ℕ
  pub refusals : ℕ
  pub ttl : ℕ

abbrev pub limits : ChunkManager → Limits
limits cm = record {
  bytes = effective_max_bytes cm;
  transfers = effective_max_transfers cm;
  refusals = effective_max_poisoned cm;
  ttl = effective_ttl cm;
}

prune_stale-limits : (cm : ChunkManager) (now ttl : ℕ) → limits (prune_stale cm now ttl) ≡ limits cm
unfolding prune_stale
prune_stale-limits cm now ttl = refl

pub poison_transfer-limits :
    (cm : ChunkManager) (now id : ℕ) → limits (poison_transfer cm now id) ≡ limits cm
unfolding poison_transfer make_poison_room prune_stale
poison_transfer-limits cm now id =
    elim (Bool-cases (leb (effective_max_poisoned cm) (length cm.poisoned))) [
      | inl full ↦ rw full refl
      | inr room ↦ rw room refl
    ]

pub handle_chunk-limits :
    (cm : ChunkManager) (now : ℕ) (req : ChunkRequest)
    → limits (handle_chunk cm now req).0 ≡ limits cm
handle_chunk-limits cm now req =
    let Same : ChunkManager → Type 0 = λ c. limits c ≡ limits cm in
    handle_chunk_part Same Same now req (λ c m h. h) (λ c h. prune_stale-limits c now _ ∙ h)
      (λ c h. h) (λ c h. h) (λ c h. poison_transfer-limits c now req.id ∙ h) cm refl

-- The manager after a run of calls, each with the clock's reading.
unfoldable pub after_all : ChunkManager → List (ℕ × ChunkRequest) → ChunkManager
after_all cm [] = cm
after_all cm ((now, req) ∷ reqs) = after_all (handle_chunk cm now req).0 reqs

after_all-IsValid :
    (cm : ChunkManager) (reqs : List (ℕ × ChunkRequest))
    → All (λ r. IsWire r.1) reqs
    → IsValid cm
    → IsValid (after_all cm reqs) × (limits (after_all cm reqs) ≡ limits cm)
unfolding after_all
after_all-IsValid cm [] h v = (v, refl)
after_all-IsValid cm ((now, req) ∷ reqs) (wire, h) v =
    let (v', e) =
      after_all-IsValid (handle_chunk cm now req).0 reqs h
        (handle_chunk-IsValid cm now req wire v) in
    (v', e ∙ handle_chunk-limits cm now req)

-- After any run of chunks, of whatever transfers and framing, with totals of 32 bits, the buffers of a new manager take at most
-- the transfer cap times the byte cap that it was configured with.
pub after_all-resident :
    (c : ChunkManagerConfig) (reqs : List (ℕ × ChunkRequest))
    → All (λ r. IsWire r.1) reqs
    → let cm = new_from_config c in
      resident (after_all cm reqs).chunk_cache ≤ effective_max_transfers cm * effective_max_bytes cm
after_all-resident c reqs h =
    let cm = new_from_config c in
    let (v, e) = after_all-IsValid cm reqs h (new_from_config-IsValid c) in
    subst (λ l. resident (after_all cm reqs).chunk_cache ≤ l.transfers * l.bytes) e
      (resident-le_caps (after_all cm reqs) v)
