-- ===== src/Server/ChunkManager/Outgoing.antt =====
-- The outgoing transfers of ChunkManager (pkg/server/manager.go): what successive calls of
-- GetNextChunk hand out.
use xll_gen.Prelude.{
  subst, ℕ, ◌+◌, ◌-◌, ◌≤◌, ◌<◌, ◌≡◌, refl, sym, ap, inl, inr, ◌⊎◌, List, [], ◌∷◌, Option, none,
  some, arith, ltb, leb, ◌==◌, nat_eq, if◌then◌else◌, ==_refl, length, take, drop, length-take,
  length-drop, lookup, lookup-erase, Bool-cases,
}
use xll_gen.Chunk.Split.{Piece, Tiles, joined, Tiles-joined}
use xll_gen.Server.ChunkManager.{
  ChunkManager, OutgoingChunk, NextChunk, get_next_chunk, remove_outgoing_chunk,
}

-- What a call found is put before what the calls after it find; the first that finds nothing ends it.
prepend : ChunkManager × Option NextChunk → ChunkManager × List Piece → ChunkManager × List Piece
prepend (cm', none) rest = (cm', [])
prepend (cm', some c) rest = (rest.0, (c.offset, c.chunk) ∷ rest.1)

-- One call for each clock reading.
pub pull_all : ChunkManager → List ℕ → ℕ → ℕ → ChunkManager × List Piece
pull_all cm [] id max_size = (cm, [])
pull_all cm (now ∷ nows) id max_size =
    let next = get_next_chunk cm now id max_size in
    let rest = pull_all next.0 nows id max_size in prepend next rest

abbrev Emptied : ChunkManager → ℕ → Type 0
Emptied cm id = lookup id cm.outgoing_chunks ≡ none

remove-Emptied : (cm : ChunkManager) (id : ℕ) → Emptied (remove_outgoing_chunk cm id) id
unfolding remove_outgoing_chunk
remove-Emptied cm id = ground (arith, lookup-erase id id cm.outgoing_chunks, ==_refl id)

get_next_chunk_missing :
    (cm : ChunkManager) (now id max_size : ℕ)
    → Emptied cm id
    → get_next_chunk cm now id max_size ≡ (cm, none)
unfolding get_next_chunk
get_next_chunk_missing cm now id max_size h = rw (h, get_next_chunk) refl

pull_all_missing :
    (cm : ChunkManager) (nows : List ℕ) (id max_size : ℕ)
    → Emptied cm id
    → pull_all cm nows id max_size ≡ (cm, [])
unfolding pull_all prepend
pull_all_missing cm [] id max_size h = refl
pull_all_missing cm (now ∷ nows) id max_size h =
    rw (get_next_chunk_missing cm now id max_size h, pull_all) refl

abbrev next_size : OutgoingChunk → ℕ → ℕ
next_size out max_size =
    let remaining = length out.payload - out.offset in
    if ltb remaining max_size then remaining else max_size

abbrev piece : OutgoingChunk → ℕ → List ℕ
piece out max_size = take (next_size out max_size) (drop out.offset out.payload)

length-piece :
    (out : OutgoingChunk) (max_size : ℕ) → length (piece out max_size) ≡ next_size out max_size
length-piece out max_size = ground (
  arith,
  length-take (next_size out max_size) (drop out.offset out.payload),
  length-drop out.offset out.payload,
)

module _ (Q : ChunkManager × Option NextChunk → Type 0) (cm : ChunkManager) (now id max_size : ℕ)
    (out : OutgoingChunk) (l : lookup id cm.outgoing_chunks ≡ some out) (p : 0 < max_size)
    (done : length out.payload ≤ out.offset → Q (remove_outgoing_chunk cm id, none))
    (more : (cm' : ChunkManager)
      → (let end = out.offset + next_size out max_size in
          ((length out.payload ≤ end) × (cm' ≡ remove_outgoing_chunk cm id))
          ⊎ ((end < length out.payload)
              × (lookup id cm'.outgoing_chunks
                  ≡ some (record out { offset = end; last_access = now }))))
      → 0 < next_size out max_size
      → Q (
        cm',
        some (record {
          chunk = piece out max_size;
          msg_type = out.msg_type;
          total_size = length out.payload;
          offset = out.offset;
        }),
      )) where
  get_next_chunk_cases : Q (get_next_chunk cm now id max_size)
  unfolding get_next_chunk
  get_next_chunk_cases = elim (Bool-cases (next_size out max_size == 0)) [
    | inl none_left ↦ rw (l, get_next_chunk, none_left) (done (ground arith))
    | inr some_left ↦
        elim (Bool-cases (leb (length out.payload) (out.offset + next_size out max_size))) [
          | inl last ↦
              rw (l, get_next_chunk, some_left, last)
                (more _ (inl (ground arith, refl)) (ground arith))
          | inr other ↦
              rw (l, get_next_chunk, some_left, other)
                (more _ (inr (ground arith, ground (arith, ==_refl id))) (ground arith))
        ]
  ]

abbrev Pulled : OutgoingChunk → ℕ → ℕ → ChunkManager × List Piece → Type 0
Pulled out id max_size r = Tiles max_size out.payload out.offset r.1 × Emptied r.0 id

-- A piece followed by the tiles of what is left.
Tiles-piece :
    (out : OutgoingChunk) (max_size : ℕ) (ps : List Piece)
    → 0 < next_size out max_size
    → out.offset ≤ length out.payload
    → Tiles max_size out.payload (out.offset + next_size out max_size) ps
    → Tiles max_size out.payload out.offset ((out.offset, piece out max_size) ∷ ps)
Tiles-piece out max_size ps s o t =
    let n = length-piece out max_size in
    (
      refl,
      omega (arith, n),
      ground (arith, n),
      ground (arith, n),
      ap (λ k. take k (drop out.offset out.payload)) (sym n),
      rw n t,
    )

pull_all-Tiles :
    (nows : List ℕ) (id max_size : ℕ) (cm : ChunkManager) (out : OutgoingChunk)
    → lookup id cm.outgoing_chunks ≡ some out
    → 0 < max_size
    → out.offset ≤ length out.payload
    → length out.payload < out.offset + length nows
    → Pulled out id max_size (pull_all cm nows id max_size)
unfolding pull_all prepend
pull_all-Tiles [] id max_size cm out l p o f = absurd (omega arith)
pull_all-Tiles (now ∷ nows) id max_size cm out l p o f =
    get_next_chunk_cases
      (λ next. Pulled out id max_size (prepend next (pull_all next.0 nows id max_size))) cm now id
      max_size out l p (λ d. (d, remove-Emptied cm id))
      (λ cm' next s. elim next [
        | inl (last, e) ↦
            let gone : Emptied cm' id = subst (λ c. Emptied c id) (sym e) (remove-Emptied cm id) in
            rw (pull_all_missing cm' nows id max_size gone)
              (Tiles-piece out max_size [] s o last, gone)
        | inr (other, l') ↦
            let rest = pull_all-Tiles nows id max_size cm' _ l' p (omega arith) (omega arith) in
            (Tiles-piece out max_size _ s o rest.0, rest.1)
      ])

-- A transfer with `out` left to send, pulled by one call for each clock reading, with a positive
-- limit and more calls than bytes left: the pieces follow one another from the transfer's offset to
-- the payload's end, none empty and none over the limit, they join to just what was left, and the
-- transfer is then gone.
pub get_next_chunk-Tiles :
    (cm : ChunkManager) (nows : List ℕ) (id max_size : ℕ) (out : OutgoingChunk)
    → lookup id cm.outgoing_chunks ≡ some out
    → 0 < max_size
    → out.offset ≤ length out.payload
    → length out.payload < out.offset + length nows
    → let r = pull_all cm nows id max_size in
      Tiles max_size out.payload out.offset r.1
      × (joined r.1 ≡ drop out.offset out.payload)
      × (lookup id r.0.outgoing_chunks ≡ none)
get_next_chunk-Tiles cm nows id max_size out l p o f =
    let h = pull_all-Tiles nows id max_size cm out l p o f in
    (h.0, Tiles-joined max_size out.payload out.offset _ h.0, h.1)
