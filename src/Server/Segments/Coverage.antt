-- ===== src/Server/Segments/Coverage.antt =====
-- The completion contract of ChunkBuffer (pkg/server/types.go): ranges that are in order, in bounds
-- and as many bytes as the transfer cover every byte of it, and a buffer filled from one payload
-- then holds that payload.
use xll_gen.Prelude.{
  ℕ, ◌+◌, ◌-◌, ◌≤◌, ◌<◌, ◌≡◌, ◌∙◌, ◌⊎◌, inl, inr, List, [], ◌∷◌, Option, none, some, arith, All,
  length, get_elem?, get_elem?_ext, copy_at, get_elem?-copy_at_below, get_elem?-copy_at_above,
  get_elem?-copy_at_within, Bool-cases, ltb, ltb→lt, ◌==◌, nat_eq,
}
use xll_gen.Server.Segments.{Segment, end_of, pred_end, claim_from, claim_segment}
use xll_gen.Server.Segments.Claims.{Ascending, Within, Apart, bytes_in}

abbrev pub Covered : ℕ → List Segment → Type 0
Covered i [] = ⊥
Covered i (s ∷ r) = ((s.offset ≤ i) × (i < end_of s)) ⊎ Covered i r

pub bytes_in-le :
    (total lo : ℕ) (ss : List Segment)
    → Ascending lo ss
    → Within total ss
    → lo ≤ total
    → bytes_in ss + lo ≤ total
bytes_in-le total lo [] a w h = omega arith
bytes_in-le total lo (s ∷ r) a w h = omega (arith, bytes_in-le total (end_of s) r a.2 w.1 w.0)

-- No room is left for a gap.
pub Covered-all :
    (total lo : ℕ) (ss : List Segment)
    → Ascending lo ss
    → Within total ss
    → total ≤ bytes_in ss + lo
    → (i : ℕ) → lo ≤ i
    → i < total
    → Covered i ss
Covered-all total lo [] a w full i b c = absurd (omega arith)
Covered-all total lo (s ∷ r) a w full i b c =
    let rest = bytes_in-le total (end_of s) r a.2 w.1 w.0 in
    elim (Bool-cases (ltb i (end_of s))) [
      | inl here ↦ inl (omega (arith, rest), ltb→lt _ _ here)
      | inr later ↦
          inr (Covered-all total (end_of s) r a.2 w.1 (omega (arith, rest)) i (ground arith) c)
    ]

-- The bytes of segment `s` are those of `p`.
abbrev pub Agrees : List ℕ → List ℕ → Segment → Type 0
Agrees p bytes s = (i : ℕ) → s.offset ≤ i → i < end_of s → get_elem? bytes i ≡ get_elem? p i

Covered-Agrees :
    (p bytes : List ℕ) (ss : List Segment) (i : ℕ)
    → All (Agrees p bytes) ss
    → Covered i ss
    → get_elem? bytes i ≡ get_elem? p i
Covered-Agrees p bytes [] i h c = absurd c
Covered-Agrees p bytes (s ∷ r) i h (inl c) = h.0 i c.0 c.1
Covered-Agrees p bytes (s ∷ r) i h (inr c) = Covered-Agrees p bytes r i h.1 c

-- A complete buffer holds the payload.
pub complete :
    (p bytes : List ℕ) (ss : List Segment)
    → length bytes ≡ length p
    → Ascending 0 ss
    → Within (length p) ss
    → bytes_in ss ≡ length p
    → All (Agrees p bytes) ss
    → bytes ≡ p
complete p bytes ss l a w full h = get_elem?_ext bytes p l λ i b.
    Covered-Agrees p bytes ss i h
      (Covered-all (length p) 0 ss a w (omega arith) i (omega arith) (omega arith))

-- `bs` is the part of `p` at `offset`.
abbrev pub SliceOf : List ℕ → ℕ → List ℕ → Type 0
SliceOf p offset bs = (k : ℕ) → k < length bs → get_elem? bs k ≡ get_elem? p (offset + k)

copy_at-Agrees :
    (p bytes : List ℕ) (offset : ℕ) (bs : List ℕ) (s : Segment)
    → Apart offset (length bs) s
    → Agrees p bytes s
    → Agrees p (copy_at bytes offset bs) s
copy_at-Agrees p bytes offset bs s (inl above) h i a b =
    get_elem?-copy_at_above bytes offset bs i (omega arith) ∙ h i a b
copy_at-Agrees p bytes offset bs s (inr below) h i a b =
    get_elem?-copy_at_below bytes offset bs i (omega arith) ∙ h i a b

pub copy_at-All-Agrees :
    (p bytes : List ℕ) (offset : ℕ) (bs : List ℕ) (ss : List Segment)
    → All (Apart offset (length bs)) ss
    → All (Agrees p bytes) ss
    → All (Agrees p (copy_at bytes offset bs)) ss
copy_at-All-Agrees p bytes offset bs [] a h = tt
copy_at-All-Agrees p bytes offset bs (s ∷ r) a h =
    (copy_at-Agrees p bytes offset bs s a.0 h.0, copy_at-All-Agrees p bytes offset bs r a.1 h.1)

pub copy_at-Agrees_self :
    (p bytes : List ℕ) (offset : ℕ) (bs : List ℕ)
    → offset + length bs ≤ length bytes
    → SliceOf p offset bs
    → Agrees p (copy_at bytes offset bs) (record { offset = offset; length = length bs })
copy_at-Agrees_self p bytes offset bs fits h i a b =
    let e : offset + (i - offset) ≡ i = omega arith in
    let r : get_elem? (copy_at bytes offset bs) (offset + (i - offset))
        ≡ get_elem? p (offset + (i - offset)) =
      get_elem?-copy_at_within bytes offset bs (i - offset) (omega arith) (omega arith)
      ∙ h (i - offset) (omega arith) in
    rw e at r

-- What holds of the old segments and of the new range holds of the segments after a claim.
claim_from-All {ℓ} :
    (Q : Segment → Type ℓ) (pred : Option Segment) (ss : List Segment) (offset len : ℕ)
    → All Q ss
    → Q (record { offset = offset; length = len })
    → All Q (claim_from pred ss offset len).1
unfolding claim_from
claim_from-All Q pred [] offset len h q = elim (Bool-cases (ltb offset (pred_end pred))) [
  | inl t ↦ rw t tt
  | inr f ↦ rw f (q, tt)
]
claim_from-All Q pred (s ∷ r) offset len h q = elim (Bool-cases (ltb s.offset offset)) [
  | inl t ↦ rw t (h.0, claim_from-All Q (some s) r offset len h.1 q)
  | inr f ↦ elim (Bool-cases (s.offset == offset)) [
    | inl t ↦ rw (f, t) h
    | inr g ↦ elim (Bool-cases (ltb offset (pred_end pred))) [
      | inl t ↦ rw (f, g, t) h
      | inr k ↦ elim (Bool-cases (ltb s.offset (offset + len))) [
        | inl t ↦ rw (f, g, k, t) h
        | inr n ↦ rw (f, g, k, n) (q, h)
      ]
    ]
  ]
]

pub claim_segment-All {ℓ} :
    (Q : Segment → Type ℓ) (ss : List Segment) (offset len : ℕ)
    → All Q ss
    → Q (record { offset = offset; length = len })
    → All Q (claim_segment ss offset len).1
unfolding claim_segment
claim_segment-All Q ss offset len = claim_from-All Q none ss offset len
