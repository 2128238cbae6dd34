-- ===== src/Server/HandleChunk/Delivery.antt =====
-- A payload that pkg/chunk/chunk.go splits and HandleChunk (pkg/server/handlers.go) reassembles.
use xll_gen.Prelude.{
  ℕ, ◌+◌, ◌^◌, ◌<◌, ◌≡◌, refl, sym, ap, subst, ◌∙◌, List, [], ◌∷◌, arith, length, take, drop,
  get_elem?, get_elem?-take, get_elem?-drop, map,
}
use xll_gen.Chunk.Split.{Piece, Tiles}
use xll_gen.Server.Segments.Coverage.{SliceOf}
use xll_gen.Server.ChunkManager.{ChunkManager}
use xll_gen.Server.ChunkManager.Bounds.{IsValid}
use xll_gen.Server.HandleChunk.{ChunkRequest, Action, acknowledge, dispatch, handle_chunk}
use xll_gen.Server.HandleChunk.Step.{handle_chunk-IsValid}
use xll_gen.Server.HandleChunk.Exact.{handle_all, Receiving, IsHonest, handle_chunk-IsExact}
use xll_gen.Server.HandleChunk.Transfer.{
  Going, Idle, Advances, request, Going-Advances, Idle-Advances,
}

-- A piece with the clock's reading when it arrives.
abbrev pub Timed : Type 0
Timed = ℕ × Piece

module _ (x mt : ℕ) (p : List ℕ) where
  abbrev pub calls : List Timed → List (ℕ × ChunkRequest)
  calls ts = map (λ t. (t.0, request x mt (length p) t.1)) ts

  -- Every chunk but the last is acknowledged, and the last dispatches the payload.
  abbrev pub answers : List Timed → List Action
  answers [] = []
  answers (t ∷ []) = dispatch p mt ∷ []
  answers (t ∷ t' ∷ ts) = acknowledge ∷ answers (t' ∷ ts)

  slice : (lo : ℕ) (d : List ℕ) → d ≡ take (length d) (drop lo p) → SliceOf p lo d
  slice lo d e k h =
      ap (λ l. get_elem? l k) e ∙ get_elem?-take (length d) k (drop lo p) h ∙ get_elem?-drop lo k p

  honest :
      (lo : ℕ) (d : List ℕ)
      → d ≡ take (length d) (drop lo p)
      → IsHonest x p (request x mt (length p) (lo, d))
  honest lo d e = record { whole = refl; part = slice lo d e }

  abbrev actions : List (ChunkRequest × Action) → List Action
  actions rs = map (λ r. r.1) rs

  module _ (cs : ℕ) (wire : length p < 2 ^ 32) where
    -- One chunk that advances the transfer, and those after it.
    Delivers : ℕ → List Timed → Type 0
    Delivers lo ts =
        (cm : ChunkManager)
        → IsValid cm
        → Receiving x p cm
        → Going x mt (length p) lo cm
        → lo < length p
        → Tiles cs p lo (map (λ t. t.1) ts)
        → actions (handle_all cm (calls ts)) ≡ answers ts

    deliver_piece :
        (lo now : ℕ) (d : List ℕ) (ts : List Timed) (cm : ChunkManager)
        → Delivers (lo + length d) ts
        → IsValid cm
        → Receiving x p cm
        → Tiles cs p lo (map (λ t. t.1) ((now, (lo, d)) ∷ ts))
        → Advances x mt (length p) lo d (handle_chunk cm now (request x mt (length p) (lo, d)))
        → actions (handle_all cm (calls ((now, (lo, d)) ∷ ts))) ≡ answers ((now, (lo, d)) ∷ ts)
    unfolding handle_all Delivers
    deliver_piece lo now d [] cm rest v h (e, pos, small, fits, own, end) a =
        let (bytes, done) = a.1 end in
        let req = request x mt (length p) (lo, d) in
        let exact : bytes ≡ p =
          (handle_chunk-IsExact x p cm now req wire v h (λ q. honest lo d own)).1 bytes mt done
            refl in
        rw (done, exact) refl
    deliver_piece lo now d ((now', (o, d')) ∷ ts) cm rest v h (e, pos, small, fits, own, more) a =
        let req = request x mt (length p) (lo, d) in
        let short : lo + length d < length p = omega (arith, more) in
        let (acked, going) = a.0 short in
        let later =
          rest (handle_chunk cm now req).0 (handle_chunk-IsValid cm now req wire v)
            (handle_chunk-IsExact x p cm now req wire v h (λ q. honest lo d own)).0 going short
            more in
        rw acked (ap (◌∷◌ acknowledge) later)

    going-Delivers : (ts : List Timed) (lo : ℕ) → Delivers lo ts
    unfolding Delivers
    going-Delivers [] lo cm v h g l t = absurd (omega (arith, l, t))
    going-Delivers ((now, (o, d)) ∷ ts) lo cm v h g l t =
        let e : o ≡ lo = t.0 in
        subst
          (λ q. actions (handle_all cm (calls ((now, (q, d)) ∷ ts))) ≡ answers ((now, (q, d)) ∷ ts))
          (sym e)
          (deliver_piece lo now d ts cm (going-Delivers ts (lo + length d)) v h
            (refl, t.1, t.2, t.3, t.4, t.5)
            (Going-Advances x mt (length p) lo d cm now wire (omega (arith, t.1)) (t.3) g))

-- The whole transfer. Take a valid manager that has no state for id `x` and room for one more transfer,
-- and a payload that is not empty, within the byte cap and shorter than 2 ^ 32 bytes, cut into pieces
-- the way `Send` cuts it. Called with these chunks in order, at any times, HandleChunk acknowledges
-- every one but the last, and at the last dispatches the payload.
pub transfer_dispatched :
    (x mt : ℕ) (p : List ℕ) (cs : ℕ) (cm : ChunkManager) (ts : List Timed)
    → IsValid cm
    → Idle x mt (length p) cm
    → 0 < length p
    → length p < 2 ^ 32
    → Tiles cs p 0 (map (λ t. t.1) ts)
    → map (λ r. r.1) (handle_all cm (calls x mt p ts)) ≡ answers x mt p ts
transfer_dispatched x mt p cs cm [] v i pos wire t = absurd (omega (arith, t))
transfer_dispatched x mt p cs cm ((now, (o, d)) ∷ ts) v i pos wire t =
    let e : o ≡ 0 = t.0 in
    subst
      (λ q.
        map (λ r. r.1) (handle_all cm (calls x mt p ((now, (q, d)) ∷ ts)))
        ≡ answers x mt p ((now, (q, d)) ∷ ts))
      (sym e)
      (deliver_piece x mt p cs wire 0 now d ts cm (going-Delivers x mt p cs wire ts (0 + length d))
        v (λ b l. absurd (ground (arith, i.new))) (refl, t.1, t.2, t.3, t.4, t.5)
        (Idle-Advances x mt (length p) d cm now wire (omega (arith, t.1)) (omega (arith, t.3)) i))
