-- ===== src/Server/Segments.antt =====
-- ChunkSegment, ChunkClaim and ClaimSegment of pkg/server/types.go: which byte ranges of a transfer
-- have arrived.
pub mod Claims
pub mod Coverage
use xll_gen.Prelude.{
  ℕ, ◌+◌, List, [], ◌∷◌, Bool, true, false, Option, none, some, ltb, ◌==◌, nat_eq, if◌then◌else◌,
}

pub record Segment : Type 0 where
  pub offset : ℕ
  pub length : ℕ

pub data ChunkClaim : Type 0 where
  claim_new claim_duplicate claim_overlap : ChunkClaim

-- The sums are taken in uint64, where those of two uint32 values do not wrap.
abbrev pub end_of : Segment → ℕ
end_of s = s.offset + s.length

-- The end of `b.Segments[i-1]`, 0 where there is none.
abbrev pub pred_end : Option Segment → ℕ
pred_end none = 0
pred_end (some p) = end_of p

-- `sort.Search` finds the first segment that does not start below `offset`, which a scan finds too,
-- since the segments ascend; `pred` is the one in front of it. The result holds the verdict and the
-- segments, with the new one in its place.
pub claim_from : Option Segment → List Segment → ℕ → ℕ → ChunkClaim × List Segment
claim_from pred [] offset length =
    if ltb offset (pred_end pred)
    then (claim_overlap, [])
    else (claim_new, record { offset = offset; length = length } ∷ [])
claim_from pred (s ∷ rest) offset length =
    let (verdict, segments) = claim_from (some s) rest offset length in
    if ltb s.offset offset
    then (verdict, s ∷ segments)
    else if s.offset == offset
    then (if s.length == length then claim_duplicate else claim_overlap, s ∷ rest)
    else if ltb offset (pred_end pred)
    then (claim_overlap, s ∷ rest)
    else if ltb s.offset (offset + length)
    then (claim_overlap, s ∷ rest)
    else (claim_new, record { offset = offset; length = length } ∷ s ∷ rest)

unfoldable pub claim_segment : List Segment → ℕ → ℕ → ChunkClaim × List Segment
unfolding claim_from
claim_segment segments offset length = claim_from none segments offset length
