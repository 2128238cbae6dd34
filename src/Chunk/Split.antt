-- ===== src/Chunk/Split.antt =====
-- What `Sender.Send` of pkg/chunk/chunk.go hands to the transport, against a reference: the payload
-- cut into pieces, delivered in order up to the first failure.
use xll_gen.Prelude.{
  ℕ, zero, suc, ◌+◌, ◌-◌, ◌≤◌, ◌<◌, ◌≡◌, refl, sym, ap, ◌∙◌, inl, inr, List, [], ◌∷◌, ◌++◌, Option,
  none, some, arith, length, take, drop, length-take, length-drop, take-append-drop, drop_all,
  drop-drop, Bool-cases, false, ltb, ltb→lt, if◌then◌else◌, nat_eq, ◌==◌,
}
use xll_gen.Chunk.{
  Frame, build_frame, RetryPolicy, Sender, effective_chunk_size, effective_max_total_bytes,
  SendError, transfer_too_large, Outcome, after_chunk, send_with_retry, send_from, send,
}

-- A piece is its offset and its bytes.
abbrev pub Piece : Type 0
Piece = ℕ × List ℕ

-- The pieces follow one another from `lo` to the end of the payload, each the payload's own bytes,
-- none empty and none longer than `cs`.
abbrev pub Tiles : ℕ → List ℕ → ℕ → List Piece → Type 0
Tiles cs p lo [] = length p ≤ lo
Tiles cs p lo ((o, d) ∷ r) =
    (o ≡ lo)
    × (1 ≤ length d)
    × (length d ≤ cs)
    × (lo + length d ≤ length p)
    × (d ≡ take (length d) (drop lo p))
    × Tiles cs p (lo + length d) r

abbrev pub joined : List Piece → List ℕ
joined [] = []
joined ((o, d) ∷ r) = d ++ joined r

cut_end : ℕ → ℕ → ℕ → ℕ
cut_end cs total lo = if ltb total (lo + cs) then total else lo + cs

pub pieces_from : ℕ → List ℕ → ℕ → ℕ → List Piece
unfolding cut_end
pieces_from cs p zero lo = []
pieces_from cs p (suc fuel) lo =
    let end = cut_end cs (length p) lo in
    let rest = pieces_from cs p fuel end in
    if ltb lo (length p) then (lo, take (end - lo) (drop lo p)) ∷ rest else []

length-cut :
    (cs : ℕ) (p : List ℕ) (lo : ℕ)
    → 0 < cs
    → lo < length p
    → let n = length (take (cut_end cs (length p) lo - lo) (drop lo p)) in
      (lo + n ≡ cut_end cs (length p) lo) × (1 ≤ n) × (n ≤ cs) × (lo + n ≤ length p)
unfolding cut_end
length-cut cs p lo h l =
    ground (arith, length-take (cut_end cs (length p) lo - lo) (drop lo p), length-drop lo p)

pub pieces_from-Tiles :
    (cs : ℕ) (p : List ℕ) (fuel lo : ℕ)
    → 0 < cs
    → length p ≤ lo + fuel
    → Tiles cs p lo (pieces_from cs p fuel lo)
unfolding pieces_from
pieces_from-Tiles cs p zero lo h f = omega arith
pieces_from-Tiles cs p (suc fuel) lo h f = elim (Bool-cases (ltb lo (length p))) [
  | inr done ↦ rw done (ground arith)
  | inl more ↦
      let cut = length-cut cs p lo h (ltb→lt lo (length p) more) in
      rw more (
        refl,
        cut.1,
        cut.2,
        cut.3,
        ap (λ n. take n (drop lo p)) (omega (arith, cut)),
        rw (cut.0) (pieces_from-Tiles cs p fuel _ h (omega (arith, cut))),
      )
]

pub Tiles-joined :
    (cs : ℕ) (p : List ℕ) (lo : ℕ) (ps : List Piece) → Tiles cs p lo ps → joined ps ≡ drop lo p
Tiles-joined cs p lo [] t = sym (drop_all lo p t)
Tiles-joined cs p lo ((o, d) ∷ r) t =
    ap (◌++◌ d) (Tiles-joined cs p (lo + length d) r t.5 ∙ sym (drop-drop lo (length d) p))
    ∙ ap (λ x. x ++ drop (length d) (drop lo p)) t.4
    ∙ take-append-drop (length d) (drop lo p)

module _ {ℓ κ} {E : Type ℓ} {S : Type κ} (deliver : Frame → S → Option E × S) (p : List ℕ)
    (id msg_type : ℕ) (policy : RetryPolicy) where
  -- The pieces are sent in order, each with its retries, up to the first that fails.
  pub deliver_all : List Piece → S → Outcome (SendError E) S
  deliver_all [] s = record { error = none; state = s; slept = [] }
  deliver_all ((o, d) ∷ r) s =
      let sent = send_with_retry deliver (build_frame d id (length p) o msg_type) policy s in
      let rest = deliver_all r sent.state in after_chunk o sent rest

  send_from-deliver_all :
      (cs fuel lo : ℕ) (s : S)
      → 0 < cs
      → length p ≤ lo + fuel
      → send_from deliver p id msg_type cs policy fuel lo s
        ≡ deliver_all (pieces_from cs p fuel lo) s
  unfolding send_from pieces_from deliver_all
  send_from-deliver_all cs zero lo s h f = ground arith
  send_from-deliver_all cs (suc fuel) lo s h f = elim (Bool-cases (ltb lo (length p))) [
    | inr done ↦ rw done
    | inl more ↦
        let cut = length-cut cs p lo h (ltb→lt lo (length p) more) in
        rw more (ap (after_chunk lo _) (send_from-deliver_all cs fuel _ _ h (omega (arith, cut))))
  ]

module _ {ℓ κ} {E : Type ℓ} {S : Type κ} (deliver : Frame → S → Option E × S) (sender : Sender)
    (p : List ℕ) (id msg_type : ℕ) (policy : RetryPolicy) (s : S) where
  cs_pos : 0 < effective_chunk_size sender
  cs_pos = ground arith

  send-deliver_all :
      length p ≤ effective_max_total_bytes sender
      → send deliver sender p id msg_type policy s
        ≡ deliver_all deliver p id msg_type policy
            (pieces_from (effective_chunk_size sender) p (length p) 0)
            s
  unfolding send pieces_from deliver_all
  send-deliver_all h =
      let within : ltb (effective_max_total_bytes sender) (length p) ≡ false = ground arith in
      elim (Bool-cases (length p == 0)) [
        | inl empty ↦ let z : length p ≡ 0 = ground arith in rw empty (rw z)
        | inr full ↦
            rw (full, within)
              (send_from-deliver_all deliver p id msg_type policy (effective_chunk_size sender)
                (length p) 0 s cs_pos (omega arith))
      ]

  -- `Send` over any transport. A payload within the cap is cut into pieces that tile it, and the
  -- call's outcome is that of delivering just these, in order, up to the first failure; so it never
  -- runs out of rounds, and a nil error means that the payload was delivered whole. A payload over
  -- the cap is refused, and the transport is not touched.
  pub send-Tiles :
      (length p ≤ effective_max_total_bytes sender
        → (ps : List Piece) × Tiles (effective_chunk_size sender) p 0 ps
          × (joined ps ≡ p)
          × (send deliver sender p id msg_type policy s
              ≡ deliver_all deliver p id msg_type policy ps s))
      × (effective_max_total_bytes sender < length p
          → send deliver sender p id msg_type policy s ≡ record {
            error = some (transfer_too_large (length p) (effective_max_total_bytes sender));
            state = s;
            slept = [];
          })
  unfolding send
  send-Tiles = (
    λ h.
        let cs = effective_chunk_size sender in
        let t = pieces_from-Tiles cs p (length p) 0 cs_pos (omega arith) in
        (pieces_from cs p (length p) 0, t, Tiles-joined cs p 0 _ t, send-deliver_all h),
    λ h. ground arith,
  )
