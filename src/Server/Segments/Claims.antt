-- ===== src/Server/Segments/Claims.antt =====
-- What a verdict of ClaimSegment (pkg/server/types.go) means, and the order that it keeps.
use xll_gen.Prelude.{
  ℕ, ◌+◌, ◌≤◌, ◌<◌, ◌≡◌, refl, ap, ◌⊎◌, inl, inr, List, [], ◌∷◌, Option, none, some, arith, All,
  Bool-cases, false, ltb, ltb→lt, ◌==◌, nat_eq,
}
use xll_gen.Server.Segments.{
  Segment, ChunkClaim, claim_new, claim_duplicate, claim_overlap, end_of, pred_end, claim_from,
  claim_segment,
}

-- Ascending from `lo`, none empty, none overlapping the next.
abbrev pub Ascending : ℕ → List Segment → Type 0
Ascending lo [] = Unit
Ascending lo (s ∷ r) = (lo ≤ s.offset) × (0 < s.length) × Ascending (end_of s) r

abbrev pub Within : ℕ → List Segment → Type 0
Within total = All (λ s. end_of s ≤ total)

abbrev pub bytes_in : List Segment → ℕ
bytes_in [] = 0
bytes_in (s ∷ r) = s.length + bytes_in r

abbrev pub Apart : ℕ → ℕ → Segment → Type 0
Apart offset length s = (offset + length ≤ s.offset) ⊎ (end_of s ≤ offset)

abbrev pub Recorded : ℕ → ℕ → List Segment → Type 0
Recorded offset length [] = ⊥
Recorded offset length (s ∷ r) =
    ((s.offset ≡ offset) × (s.length ≡ length)) ⊎ Recorded offset length r

-- What each verdict says of the segments before and after.
abbrev pub Says : ℕ → ℕ → List Segment → ChunkClaim × List Segment → Type 0
Says offset length old (claim_new, new) =
    All (Apart offset length) old × (bytes_in new ≡ bytes_in old + length)
Says offset length old (claim_duplicate, new) = Recorded offset length old × (new ≡ old)
Says offset length old (claim_overlap, new) =
    (All (Apart offset length) old → ⊥) × (Recorded offset length old → ⊥) × (new ≡ old)

Ascending-mono : (lo lo' : ℕ) (ss : List Segment) → lo' ≤ lo → Ascending lo ss → Ascending lo' ss
Ascending-mono lo lo' [] h a = tt
Ascending-mono lo lo' (s ∷ r) h a = ground arith

-- Segments that start at or after the end of a range are apart from it.
above-Apart :
    (offset length lo : ℕ) (ss : List Segment)
    → offset + length ≤ lo
    → Ascending lo ss
    → All (Apart offset length) ss
above-Apart offset length lo [] h a = tt
above-Apart offset length lo (s ∷ r) h a =
    (inl (omega arith), above-Apart offset length (end_of s) r (omega arith) a.2)

above-Recorded :
    (offset length lo : ℕ) (ss : List Segment)
    → offset < lo
    → Ascending lo ss
    → Recorded offset length ss
    → ⊥
above-Recorded offset length lo [] h a r = r
above-Recorded offset length lo (s ∷ ss) h a (inl e) = omega arith
above-Recorded offset length lo (s ∷ ss) h a (inr r) =
    above-Recorded offset length (end_of s) ss (omega arith) a.2 r

pub claim_from-Ascending :
    (pred : Option Segment) (ss : List Segment) (offset length : ℕ)
    → 0 < length
    → Ascending (pred_end pred) ss
    → Ascending (pred_end pred) (claim_from pred ss offset length).1
unfolding claim_from
claim_from-Ascending pred [] offset length h a = ground arith
claim_from-Ascending pred (s ∷ r) offset length h a =
    ground (arith, claim_from-Ascending (some s) r offset length)

-- A range that begins inside the predecessor is refused.
claim_from-inside :
    (pred : Option Segment) (ss : List Segment) (offset length : ℕ)
    → Ascending (pred_end pred) ss
    → offset < pred_end pred
    → claim_from pred ss offset length ≡ (claim_overlap, ss)
unfolding claim_from
claim_from-inside pred [] offset length a h = ground arith
claim_from-inside pred (s ∷ r) offset length a h = ground arith

-- A verdict on the later segments is one on all, if the first ends at or before the range.
Says-cons :
    (offset length : ℕ) (s : Segment) (r : List Segment) (v : ChunkClaim × List Segment)
    → 0 < s.length
    → end_of s ≤ offset
    → Says offset length r v
    → Says offset length (s ∷ r) (v.0, s ∷ v.1)
Says-cons offset length s r (claim_new, new) p h (apart, sum) = ((inr h, apart), omega (arith, sum))
Says-cons offset length s r (claim_duplicate, new) p h (recorded, same) =
    (inr recorded, ap (◌∷◌ s) same)
Says-cons offset length s r (claim_overlap, new) p h (apart, recorded, same) =
    (λ t. apart t.1, λ t. elim t [ inl e ↦ omega arith | inr t' ↦ recorded t' ], ap (◌∷◌ s) same)

Says-overlap :
    (offset length : ℕ) (s : Segment) (r : List Segment)
    → Ascending (end_of s) r
    → (Apart offset length s → ⊥)
    → ((s.offset ≡ offset) × (s.length ≡ length) → ⊥)
    → offset < end_of s
    → Says offset length (s ∷ r) (claim_overlap, s ∷ r)
Says-overlap offset length s r a apart recorded h = (
  λ t. apart t.0,
  λ t. elim t [ inl e ↦ recorded e | inr t' ↦ above-Recorded offset length (end_of s) r h a t' ],
  refl,
)

claim_from-Says :
    (pred : Option Segment) (ss : List Segment) (offset length : ℕ)
    → 0 < length
    → Ascending (pred_end pred) ss
    → pred_end pred ≤ offset
    → Says offset length ss (claim_from pred ss offset length)
unfolding claim_from
claim_from-Says pred [] offset length h a st = ground arith
claim_from-Says pred (s ∷ r) offset length h (lo, pos, a) st =
    elim (Bool-cases (ltb s.offset offset)) [
      | inl before ↦ elim (Bool-cases (ltb offset (end_of s))) [
        | inl inside ↦
            rw (before, claim_from-inside (some s) r offset length a (ltb→lt _ _ inside))
              (Says-overlap offset length s r a (λ t. ground arith) (λ t. ground arith)
                (ltb→lt _ _ inside))
        | inr past ↦ rw before (
            Says-cons offset length s r _ pos (ground arith)
              (claim_from-Says (some s) r offset length h a (ground arith)))
      ]
      | inr after ↦ elim (Bool-cases (s.offset == offset)) [
        | inl same ↦ elim (Bool-cases (s.length == length)) [
          | inl exact ↦ rw (after, same, exact) (inl (ground arith), refl)
          | inr other ↦
              rw (after, same, other)
                (Says-overlap offset length s r a (λ t. ground arith) (λ t. ground arith)
                  (ground arith))
        ]
        | inr later ↦
            let clear : ltb offset (pred_end pred) ≡ false = ground arith in
            elim (Bool-cases (ltb s.offset (offset + length))) [
              | inl hits ↦
                  rw (after, later, clear, hits)
                    (Says-overlap offset length s r a (λ t. ground arith) (λ t. ground arith)
                      (ground arith))
              | inr fits ↦
                  rw (after, later, clear, fits)
                    (
                      (inl (ground arith), above-Apart offset length (end_of s) r (ground arith) a),
                      omega arith,
                    )
            ]
      ]
    ]

-- The verdict on a range that is not empty, over segments in order. `claim_new`: it is apart from
-- every recorded segment, and is now counted. `claim_duplicate`: just this range is recorded
-- already. `claim_overlap`: neither, so it shares a byte with another range. The segments stay in
-- order, and only `claim_new` changes them.
pub claim_segment_lem :
    (segments : List Segment) (offset length : ℕ)
    → 0 < length
    → Ascending 0 segments
    → Says offset length segments (claim_segment segments offset length)
      × Ascending 0 (claim_segment segments offset length).1
unfolding claim_segment
claim_segment_lem segments offset length h a = (
  claim_from-Says none segments offset length h a (omega arith),
  claim_from-Ascending none segments offset length h a,
)
