-- ===== src/Server/HandleChunk/Exact.antt =====
-- What HandleChunk (pkg/server/handlers.go) dispatches is the payload, byte for byte, in whatever
-- order and however often its chunks arrive, and whatever other transfers do meanwhile.
use xll_gen.Prelude.{
  ℕ, ◌≡◌, refl, sym, subst, ◌∙◌, inl, inr, List, [], ◌∷◌, some, arith, ◌==◌, nat_eq, length, lookup,
  insert, erase, lookup-erase-some, Bool-cases, All, nat_beq_iff,
}
use xll_gen.Server.Segments.Claims.{Within}
use xll_gen.Server.Segments.Coverage.{
  Agrees, SliceOf, complete, copy_at-All-Agrees, copy_at-Agrees_self, claim_segment-All,
}
use xll_gen.Server.ChunkManager.{
  ChunkManager, ChunkManagerConfig, ChunkBuffer, Got, got, refused, effective_max_bytes,
  is_poisoned, get_chunk_buffer, new_from_config,
}
use xll_gen.Server.ChunkManager.Bounds.{
  IsValid, IsFilled, new_from_config-IsValid, get_chunk_buffer-IsValid, is_poisoned-IsValid,
}
use xll_gen.Server.ChunkManager.Opening.{get_chunk_buffer_cases, get_chunk_buffer-got}
use xll_gen.Server.ChunkManager.Poison.{poison_transfer_cache, is_poisoned_cache}
use xll_gen.Server.HandleChunk.{ChunkRequest, Action, dispatch, finish, proceed, handle_chunk}
use xll_gen.Server.HandleChunk.Step.{
  IsWire, IsNew, filled_with, receive_cases, finish_cases, handle_chunk-IsValid,
}

module _ (x : ℕ) (p : List ℕ) where
  -- A chunk of transfer `x` carries a part of `p`, and declares its length.
  pub record IsHonest (req : ChunkRequest) : Type 0 where
    pub whole : req.total_size ≡ length p
    pub part : SliceOf p req.offset req.bytes

  -- What has been received of `p`.
  pub record Filling (b : ChunkBuffer) : Type 0 where
    pub whole : b.total_size ≡ length p
    pub agrees : All (Agrees p b.bytes) b.segments

  -- The buffer of transfer `x`, if there is one, holds parts of `p`.
  abbrev pub Receiving : ChunkManager → Type 0
  Receiving cm = (b : ChunkBuffer) → lookup x cm.chunk_cache ≡ some b → Filling b

  -- The call keeps that, and dispatches for `x` nothing but `p`.
  abbrev pub IsExact : ChunkRequest → ChunkManager × Action → Type 0
  IsExact req r =
      Receiving r.0
      × ((bytes : List ℕ) (msg_type : ℕ) → r.1 ≡ dispatch bytes msg_type → req.id ≡ x → bytes ≡ p)

  filled_with-Filling :
      (limit : ℕ) (req : ChunkRequest) (b : ChunkBuffer)
      → IsFilled limit b
      → IsHonest req
      → IsNew req b
      → Filling b
      → Filling (filled_with req b)
  filled_with-Filling limit req b k honest new f = record {
    whole = f.whole;
    agrees =
        claim_segment-All _ b.segments req.offset (length req.bytes)
          (copy_at-All-Agrees p b.bytes req.offset req.bytes b.segments new.apart f.agrees)
          (copy_at-Agrees_self p b.bytes req.offset req.bytes new.fits honest.part);
  }

  erase-Receiving :
      (id : ℕ) (m : List (ℕ × ChunkBuffer)) (b : ChunkBuffer)
      → ((c : ChunkBuffer) → lookup x m ≡ some c → Filling c)
      → lookup x (erase id m) ≡ some b
      → Filling b
  erase-Receiving id m b h l = h b (lookup-erase-some id x b m l)

  put-Receiving :
      (id : ℕ) (m : List (ℕ × ChunkBuffer)) (new b : ChunkBuffer)
      → ((c : ChunkBuffer) → lookup x m ≡ some c → Filling c)
      → (id ≡ x → Filling new)
      → lookup x (insert id new m) ≡ some b
      → Filling b
  put-Receiving id m new b h n l = elim (Bool-cases (id == x)) [
    | inl same ↦ let e : new ≡ b = ground arith in subst Filling e (n ((nat_beq_iff id x).0 same))
    | inr other ↦ erase-Receiving id m b h (ground arith)
  ]

  finish-IsExact :
      (limit : ℕ) (cm : ChunkManager) (req : ChunkRequest) (b : ChunkBuffer)
      → IsFilled limit b
      → Receiving cm
      → (req.id ≡ x → Filling b)
      → IsExact req (finish cm req b)
  finish-IsExact limit cm req b k h f =
      finish_cases (IsExact req) limit cm req b k
        (λ full. (
          λ c l.
              erase-Receiving req.id (erase req.id cm.chunk_cache) c
                (λ c' l'. erase-Receiving req.id cm.chunk_cache c' h l') l,
          λ bytes msg_type e same.
              let g = f same in
              let w : Filling b = g in
              let exact : b.bytes ≡ p =
                complete p b.bytes b.segments (k.sized ∙ g.whole) k.ascending
                  (subst (λ n. Within n b.segments) g.whole k.within)
                  (sym k.counted ∙ full ∙ g.whole) g.agrees in
              cc,
        ))
        (λ k'. (λ c l. put-Receiving req.id cm.chunk_cache b c h f l, λ bytes msg_type e same. cc))

  proceed-IsExact :
      (cm : ChunkManager) (now : ℕ) (req : ChunkRequest) (answer : Got)
      → IsWire req
      → IsValid cm
      → Receiving cm
      → (req.id ≡ x → IsHonest req)
      → ((b : ChunkBuffer)
          → answer ≡ got b
          → (lookup req.id cm.chunk_cache ≡ some b) × (b.total_size ≡ req.total_size))
      → IsExact req (proceed cm now req answer)
  unfolding proceed
  proceed-IsExact cm now req (refused e) wire v h honest g = (h, λ bytes msg_type e' same. cc)
  proceed-IsExact cm now req (got b) wire v h honest g =
      let (l, total) = g b refl in
      let k = (v.buffers req.id b l).filled in
      let f : req.id ≡ x → Filling b =
        λ e. h b (subst (λ i. lookup i cm.chunk_cache ≡ some b) e l) in
      receive_cases (IsExact req) (effective_max_bytes cm) cm now req b k
        (
          λ c l'. h c (poison_transfer_cache cm now req.id x c v.distinct l').0,
          λ bytes msg_type e same. cc,
        )
        (λ r. finish-IsExact (effective_max_bytes cm) cm req b k h f)
        (λ n k'.
          finish-IsExact (effective_max_bytes cm) cm req (filled_with req b) k' h
            (λ e. filled_with-Filling (effective_max_bytes cm) req b k (honest e) n (f e)))
        (omega arith)

  -- Opening a transfer keeps what has been received of `p`, or starts with nothing.
  get_chunk_buffer-Receiving :
      (cm : ChunkManager) (now id total : ℕ)
      → IsValid cm
      → Receiving cm
      → (id ≡ x → total ≡ length p)
      → Receiving (get_chunk_buffer cm now id total).0
  get_chunk_buffer-Receiving cm now id total v h whole =
      get_chunk_buffer_cases (λ r. Receiving r.0) cm now id total v.distinct
        (λ cm' e t c l. h c (t x c l))
        (λ b old same c l.
          put-Receiving id cm.chunk_cache _ c h
            (λ e.
              let f = h b (subst (λ i. lookup i cm.chunk_cache ≡ some b) e old) in
              record { whole = f.whole; agrees = f.agrees })
            l)
        (λ cm' t pos c l.
          put-Receiving id cm'.chunk_cache _ c (λ c' l'. h c' (t x c' l'))
            (λ e. record { whole = whole e; agrees = tt }) l)

  pub handle_chunk-IsExact :
      (cm : ChunkManager) (now : ℕ) (req : ChunkRequest)
      → IsWire req
      → IsValid cm
      → Receiving cm
      → (req.id ≡ x → IsHonest req)
      → IsExact req (handle_chunk cm now req)
  unfolding handle_chunk
  handle_chunk-IsExact cm now req wire v h honest =
      let cm1 = (is_poisoned cm now req.id).0 in
      let v1 = is_poisoned-IsValid cm now req.id v in
      let h1 : Receiving cm1 =
        λ b l. h b (subst (λ m. lookup x m ≡ some b) (is_poisoned_cache cm now req.id) l) in
      elim (Bool-cases (is_poisoned cm now req.id).1) [
        | inl bad ↦ rw bad (h1, λ bytes msg_type e same. cc)
        | inr good ↦ rw good (
            proceed-IsExact _ now req _ wire
              (get_chunk_buffer-IsValid cm1 now req.id req.total_size v1)
              (get_chunk_buffer-Receiving cm1 now req.id req.total_size v1 h1
                (λ e. (honest e).whole))
              honest (λ b. get_chunk_buffer-got cm1 now req.id req.total_size b v1.distinct))
      ]

-- A run of calls, each with the clock's reading: what was asked, and what came of it.
unfoldable pub handle_all : ChunkManager → List (ℕ × ChunkRequest) → List (ChunkRequest × Action)
handle_all cm [] = []
handle_all cm ((now, req) ∷ reqs) =
    let (cm', action) = handle_chunk cm now req in (req, action) ∷ handle_all cm' reqs

-- Each request is a frame of the wire, and those of transfer `x` carry parts of `p`.
abbrev pub Carry : ℕ → List ℕ → List (ℕ × ChunkRequest) → Type 0
Carry x p = All (λ r. IsWire r.1 × (r.1.id ≡ x → IsHonest x p r.1))

-- All that is dispatched for transfer `x` is `p`.
abbrev pub Yields : ℕ → List ℕ → List (ChunkRequest × Action) → Type 0
Yields x p =
    All (λ r.
      (bytes : List ℕ) (msg_type : ℕ) → r.1 ≡ dispatch bytes msg_type → r.0.id ≡ x → bytes ≡ p)

handle_all-Yields :
    (x : ℕ) (p : List ℕ) (reqs : List (ℕ × ChunkRequest)) (cm : ChunkManager)
    → IsValid cm
    → Receiving x p cm
    → Carry x p reqs
    → Yields x p (handle_all cm reqs)
unfolding handle_all
handle_all-Yields x p [] cm v h c = tt
handle_all-Yields x p ((now, req) ∷ reqs) cm v h ((wire, honest), rest) =
    let e = handle_chunk-IsExact x p cm now req wire v h honest in
    (e.1, handle_all-Yields x p reqs _ (handle_chunk-IsValid cm now req wire v) e.0 rest)

-- Take any run of a new manager: chunks of transfer `x` that carry parts of the payload `p`, in any
-- order, any number of times and at any times, among any frames of other transfers. Whatever the
-- server dispatches for `x` is `p`, whole and with every byte in place.
pub dispatch_exact :
    (x : ℕ) (p : List ℕ) (c : ChunkManagerConfig) (reqs : List (ℕ × ChunkRequest))
    → Carry x p reqs
    → Yields x p (handle_all (new_from_config c) reqs)
unfolding new_from_config
dispatch_exact x p c reqs carry =
    handle_all-Yields x p reqs (new_from_config c) (new_from_config-IsValid c) (λ b l. cc) carry
