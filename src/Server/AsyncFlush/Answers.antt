-- ===== src/Server/AsyncFlush/Answers.antt =====
-- Every handle of a batch is answered (pkg/server/async_batcher.go), whatever the sizes.
use xll_gen.Prelude.{
  append_assoc, ℕ, zero, suc, ◌+◌, ◌/◌, ◌≤◌, ◌<◌, ◌≡◌, refl, sym, ap, subst, ◌∙◌, inl, inr, Bool,
  true, false, List, [], ◌∷◌, ◌++◌, Option, ℤ, arith, ltb, ltb→lt, lt→ltb, length, take, drop,
  length-take, length-drop, take-append-drop, All, Bool-cases,
}
use Prim.Native.String.{String}
use xll_gen.Chunk.{Frame, max_transfer_bytes}
use xll_gen.Server.AsyncFlush.{
  PendingAsyncResult, transmit, diagnostic, flush_bounded, flush_async_batch,
}

abbrev pub joined_batches {ℓ} : {A : Type ℓ} → List (List A) → List A
joined_batches [] = []
joined_batches (b ∷ bs) = b ++ joined_batches bs

-- The second list answers the first, in order: with each result itself, or, where that alone exceeds
-- the limit, with its diagnostic, or, where that exceeds the limit too, not at all.
pub data Answers {ℓ} {V : Type ℓ} (size : List (PendingAsyncResult V) → ℕ)
    (diag : PendingAsyncResult V → PendingAsyncResult V) (limit : ℕ)
    : List (PendingAsyncResult V) → List (PendingAsyncResult V) → Type ℓ where
  none_left : Answers size diag limit [] []
  kept :
      (r : PendingAsyncResult V) (rs out : List (PendingAsyncResult V))
      → Answers size diag limit rs out
      → Answers size diag limit (r ∷ rs) (r ∷ out)
  replaced :
      (r : PendingAsyncResult V) (rs out : List (PendingAsyncResult V))
      → limit < size (r ∷ [])
      → Answers size diag limit rs out
      → Answers size diag limit (r ∷ rs) (diag r ∷ out)
  dropped :
      (r : PendingAsyncResult V) (rs out : List (PendingAsyncResult V))
      → limit < size (r ∷ [])
      → limit < size (diag r ∷ [])
      → Answers size diag limit rs out
      → Answers size diag limit (r ∷ rs) out

module _ {ℓ} {V : Type ℓ} (size : List (PendingAsyncResult V) → ℕ)
    (diag : PendingAsyncResult V → PendingAsyncResult V) (limit : ℕ) where
  Answers-append :
      (rs out ss out' : List (PendingAsyncResult V))
      → Answers size diag limit rs out
      → Answers size diag limit ss out'
      → Answers size diag limit (rs ++ ss) (out ++ out')
  Answers-append _ _ ss out' none_left b = b
  Answers-append _ _ ss out' (kept r rs out a) b =
      kept r (rs ++ ss) (out ++ out') (Answers-append rs out ss out' a b)
  Answers-append _ _ ss out' (replaced r rs out h a) b =
      replaced r (rs ++ ss) (out ++ out') h (Answers-append rs out ss out' a b)
  Answers-append _ _ ss out' (dropped r rs out h k a) b =
      dropped r (rs ++ ss) (out ++ out') h k (Answers-append rs out ss out' a b)

  Answers-refl : (rs : List (PendingAsyncResult V)) → Answers size diag limit rs rs
  Answers-refl [] = none_left
  Answers-refl (r ∷ rs) = kept r rs rs (Answers-refl rs)

joined_batches-append {ℓ} :
    {A : Type ℓ} (bs cs : List (List A))
    → joined_batches (bs ++ cs) ≡ joined_batches bs ++ joined_batches cs
joined_batches-append [] cs = refl
joined_batches-append (b ∷ bs) cs =
    ap (◌++◌ b) (joined_batches-append bs cs)
    ∙ sym (append_assoc b (joined_batches bs) (joined_batches cs))

append_nil {ℓ} : {A : Type ℓ} (xs : List A) → xs ++ [] ≡ xs
append_nil [] = refl
append_nil (x ∷ xs) = ap (◌∷◌ x) (append_nil xs)

All-append {ℓ κ} :
    {A : Type ℓ} (P : A → Type κ) (xs ys : List A) → All P xs → All P ys → All P (xs ++ ys)
All-append P [] ys a b = b
All-append P (x ∷ xs) ys a b = (a.0, All-append P xs ys a.1 b)

module _ {ℓ κ ν} {V : Type ℓ} {E : Type κ} {S : Type ν}
    (encode : List (PendingAsyncResult V) → List ℕ) (nil_value : V)
    (oversized_text : ℕ → ℕ → String) (call : List ℕ → S → Option E × S)
    (call_frame : Frame → S → Option E × S) (fresh : S → ℕ × S) (capacity : Option ℤ) where
  abbrev pub size_of : List (PendingAsyncResult V) → ℕ
  size_of b = length (encode b)

  abbrev pub transmit_batch : List (PendingAsyncResult V) → S → S
  transmit_batch b s =
      transmit encode nil_value oversized_text call call_frame fresh capacity (encode b) s

  -- Each batch is transmitted in one transfer, in order.
  abbrev pub transmit_all : List (List (PendingAsyncResult V)) → S → S
  transmit_all [] s = s
  transmit_all (b ∷ bs) s = transmit_all bs (transmit_batch b s)

  transmit_all-append :
      (bs cs : List (List (PendingAsyncResult V))) (s : S)
      → transmit_all (bs ++ cs) s ≡ transmit_all cs (transmit_all bs s)
  transmit_all-append [] cs s = refl
  transmit_all-append (b ∷ bs) cs s = transmit_all-append bs cs (transmit_batch b s)

  module _ (limit : ℕ) where
    abbrev diag : PendingAsyncResult V → PendingAsyncResult V
    diag r = diagnostic encode nil_value oversized_text call call_frame fresh capacity limit r

    -- The state that a flush of `batch` from `s` leaves, by batches within the limit.
    abbrev pub Flushed : List (PendingAsyncResult V) → S → S → Type (ℓ ⊔ ν)
    Flushed batch s s' =
        (bs : List (List (PendingAsyncResult V))) × All (λ b. size_of b ≤ limit) bs
        × Answers size_of diag limit batch (joined_batches bs)
        × (s' ≡ transmit_all bs s)

    flush : ℕ → Bool → List (PendingAsyncResult V) → S → S
    flush fuel substituted batch s =
        flush_bounded encode nil_value oversized_text call call_frame fresh capacity fuel limit
          substituted batch s

    flush_once :
        (fuel : ℕ) (substituted : Bool) (r : PendingAsyncResult V)
        (rest : List (PendingAsyncResult V)) (s : S)
        → size_of (r ∷ rest) ≤ limit
        → Flushed (r ∷ rest) s (flush (suc fuel) substituted (r ∷ rest) s)
    unfolding flush_bounded flush
    flush_once fuel substituted r rest s h =
        let small : ltb limit (size_of (r ∷ rest)) ≡ false = ground arith in
        (
          (r ∷ rest) ∷ [],
          (h, tt),
          subst (Answers size_of diag limit (r ∷ rest)) (sym (append_nil (r ∷ rest)))
              (Answers-refl size_of diag limit (r ∷ rest)),
          rw small refl,
        )

    -- One result over the limit: its diagnostic is flushed, unless that is over the limit too.
    flush_single :
        (fuel : ℕ) (r : PendingAsyncResult V) (s : S)
        → limit < size_of (r ∷ [])
        → Flushed (r ∷ []) s (flush (suc (suc fuel)) false (r ∷ []) s)
    unfolding flush_bounded flush
    flush_single fuel r s h =
        let big : ltb limit (size_of (r ∷ [])) ≡ true = lt→ltb limit _ h in
        elim (Bool-cases (ltb limit (size_of (diag r ∷ [])))) [
          | inl over ↦
              ([], tt, dropped r [] [] h (ltb→lt limit _ over) none_left, rw (big, over) refl)
          | inr fits ↦ (
            (diag r ∷ []) ∷ [],
            (ground (arith, fits), tt),
            replaced r [] [] h none_left,
            rw (big, fits) refl,
          )
        ]

    flush-Flushed :
        (fuel : ℕ) (batch : List (PendingAsyncResult V)) (s : S)
        → length batch < fuel
        → Flushed batch s (flush fuel false batch s)
    unfolding flush_bounded flush
    flush-Flushed zero batch s f = absurd (omega arith)
    flush-Flushed (suc fuel) [] s f = ([], tt, none_left, refl)
    flush-Flushed (suc zero) (r ∷ []) s f = absurd (omega arith)
    flush-Flushed (suc (suc fuel)) (r ∷ []) s f = elim (Bool-cases (ltb limit (size_of (r ∷ [])))) [
      | inr small ↦ flush_once (suc fuel) false r [] s (ground arith)
      | inl big ↦ flush_single fuel r s (ltb→lt limit _ big)
    ]
    flush-Flushed (suc fuel) (r ∷ r' ∷ rest) s f =
        elim (Bool-cases (ltb limit (size_of (r ∷ r' ∷ rest)))) [
          | inr small ↦ flush_once fuel false r (r' ∷ rest) s (ground arith)
          | inl big ↦
              let batch = r ∷ r' ∷ rest in
              let mid = length batch / 2 in
              let many : ltb 1 (length batch) ≡ true = ground arith in
              let first = flush fuel false (take mid batch) s in
              let (bs, fits, a, e) =
                flush-Flushed fuel (take mid batch) s (omega (arith, length-take mid batch, f)) in
              let (cs, fits', a', e') =
                flush-Flushed fuel (drop mid batch) first
                  (omega (arith, length-drop mid batch, f)) in
              (
                bs ++ cs,
                All-append (λ b. size_of b ≤ limit) bs cs fits fits',
                subst (λ x. Answers size_of diag limit x (joined_batches (bs ++ cs)))
                    (take-append-drop mid batch)
                    (subst (Answers size_of diag limit (take mid batch ++ drop mid batch))
                      (sym (joined_batches-append bs cs))
                      (Answers-append size_of diag limit (take mid batch) (joined_batches bs)
                        (drop mid batch) (joined_batches cs) a a')),
                rw (big, many) (e' ∙ ap (transmit_all cs) e ∙ sym (transmit_all-append bs cs s)),
              )
        ]

  -- A flush to a connected client, over any encoding and any transport. It comes to transmitting batches
  -- in order, each encoded within the transfer cap, whose results answer the pending ones in order:
  -- each with itself; or, if it alone is over the cap, with the diagnostic for its handle; only where
  -- the diagnostic is over the cap too is a handle left without an answer. Without a client, nothing
  -- is sent.
  pub flush_async_batch-Answers :
      (batch : List (PendingAsyncResult V)) (s : S)
      → let flush_batch =
          flush_async_batch encode nil_value oversized_text call call_frame fresh capacity in
        Flushed max_transfer_bytes batch s (flush_batch true batch s)
        × (flush_batch false batch s ≡ s)
  unfolding flush_async_batch flush
  flush_async_batch-Answers batch s =
      (flush-Flushed max_transfer_bytes (length batch + 1) batch s (omega arith), refl)
