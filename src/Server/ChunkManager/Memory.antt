-- ===== src/Server/ChunkManager/Memory.antt =====
-- The memory that ChunkManager (pkg/server/manager.go) takes for incoming transfers.
use xll_gen.Prelude.{
  ℕ, suc, ◌+◌, ◌*◌, ◌≤◌, ◌≡◌, List, [], ◌∷◌, arith, length, Distinct, Entries, nat_beq_iff, ==_refl,
  nat_eq,
}
use native.Mathlib.Nat.{le_trans}
use xll_gen.Server.ChunkManager.{
  ChunkManager, ChunkBuffer, effective_max_transfers, effective_max_bytes,
}
use xll_gen.Server.ChunkManager.Bounds.{IsValid, IsBuffer}

-- The memory that the buffers of the cache take.
abbrev pub resident : List (ℕ × ChunkBuffer) → ℕ
resident [] = 0
resident ((id, b) ∷ m) = length b.bytes + resident m

mul_mono_left : (c a b : ℕ) → a ≤ b → a * c ≤ b * c
mul_mono_left c a b h = grind arith

resident-le :
    (limit : ℕ) (m : List (ℕ × ChunkBuffer))
    → Distinct m
    → Entries (λ id. IsBuffer limit) m
    → resident m ≤ length m * limit
resident-le limit [] d h = omega arith
resident-le limit ((j, b) ∷ m) d h =
    let k = h j b (rw (==_refl j)) in
    let tail : Entries (λ id. IsBuffer limit) m =
      λ i c l. h i c (ground (arith, nat_beq_iff j i)) in
    let rest = resident-le limit m d.1 tail in
    let e : suc (length m) * limit ≡ length m * limit + limit = grind arith in
    omega (arith, rest, e, k.sized, k.capped)

-- In a valid manager the two caps multiply.
pub resident-le_caps :
    (cm : ChunkManager)
    → IsValid cm
    → resident cm.chunk_cache ≤ effective_max_transfers cm * effective_max_bytes cm
resident-le_caps cm v =
    let limit = effective_max_bytes cm in
    let r = resident-le limit cm.chunk_cache v.distinct v.buffers in
    le_trans r (mul_mono_left limit (length cm.chunk_cache) (effective_max_transfers cm) v.bounded)
