-- ===== src/Rtd/RunOnce/Order.antt =====
-- What RunOnceGrid (pkg/rtd/runonce.go) pushes, and in which order, over any sequence of calls.
use xll_gen.Prelude.{
  ℕ, suc, ◌+◌, ◌^◌, ◌≤◌, ◌<◌, ◌≡◌, ◌≢◌, ◌⊎◌, refl, sym, ap, subst, ◌∙◌, inl, inr, false, List, [],
  ◌∷◌, Option, none, some, arith, ≢→==, text_eq, length, All, All-weaken, AllDistinct, mem, Text,
  Option-cases, lt→ltb, itoa-read_decimal, read_decimal,
}
use Prim.Native.String.{String}
use xll_gen.Rtd.RunOnce.{AnyValue, text_value, format_int, RunError, run_once_grid}
use xll_gen.Rtd.RunOnce.Recording.{
  Event, handler_ran, update_sent, error_sent, Verdicts, recording, logged, pushes, InOrder, tokens,
}

format_int_injective : (a b : ℕ) → a < 2 ^ 63 → b < 2 ^ 63 → format_int a ≡ format_int b → a ≡ b
unfolding format_int
format_int_injective a b h k e =
    let p = rw (lt→ltb a (2 ^ 63) h, lt→ltb b (2 ^ 63) k) at e in
    sym (itoa-read_decimal a) ∙ ap (read_decimal 0) p ∙ itoa-read_decimal b

-- The counter's value, in decimal, at some time up to now.
abbrev IsPast : ℕ → Text → Type 0
IsPast seq t = (k : ℕ) × (k ≤ seq) × (t ≡ format_int k)

next_token_new :
    (seq : ℕ) (ts : List Text)
    → seq + 1 < 2 ^ 63
    → All (IsPast seq) ts
    → mem (format_int (seq + 1)) ts ≡ false
next_token_new seq [] small h = refl
next_token_new seq (t ∷ ts) small ((k, past, e), h) =
    let other : t ≢ format_int (seq + 1) = λ q.
      let s = format_int_injective k (seq + 1) (omega (arith, past, small)) small (sym e ∙ q) in
      absurd (omega (arith, s, past)) in
    rw (≢→== t (format_int (seq + 1)) other) (next_token_new seq ts small h)

-- One call: what the context, the handler and their results are.
pub record Call (E : Type 0) : Type 0 where
  pub ctx_err : Option E
  pub id : ℕ
  pub once_key : String
  pub result : E ⊎ List ℕ

module _ {ℓ} {V : Type ℓ} {E : Type 0} (text : E → String) (v : Verdicts (AnyValue V) E) where
  abbrev pub serve_call :
      Call E → ℕ → List (Event (AnyValue V)) → Option (RunError E) × ℕ × List (Event (AnyValue V))
  serve_call c seq log =
      run_once_grid text c.ctx_err (some (recording v)) c.id c.once_key (some (logged c.result)) seq
        log

  -- The counter and the events after some calls.
  abbrev pub serve_calls :
      List (Call E) → ℕ → List (Event (AnyValue V)) → ℕ × List (Event (AnyValue V))
  serve_calls [] seq log = (seq, log)
  serve_calls (c ∷ cs) seq log =
      let (r, seq', log') = serve_call c seq log in serve_calls cs seq' log'

  -- The last push of a call on `id`: an error's text, with the counter as it was, or the next token.
  abbrev pub Ends : ℕ → ℕ → List Text → ℕ → List (Event (AnyValue V)) → Type ℓ
  Ends id seq before seq' log =
      ((seq' ≡ seq)
        × ((t : String) × (rest : List (Event (AnyValue V))) × (log ≡ error_sent id t ∷ rest)
            × (tokens rest ≡ before)))
      ⊎ ((seq' ≡ seq + 1)
          × ((rest : List (Event (AnyValue V))) × (log
                ≡ update_sent id (text_value (format_int seq')) ∷ rest)
              × (tokens rest ≡ before)))

  abbrev Served : ℕ → ℕ → List (Event (AnyValue V)) → ℕ → List (Event (AnyValue V)) → Type ℓ
  Served id seq log seq' log' =
      (pushes log' ≡ suc (pushes log)) × InOrder v log' × Ends id seq (tokens log) seq' log'

  serve_call-Served :
      (ctx_err : Option E) (id : ℕ) (once_key : String) (result : E ⊎ List ℕ) (seq : ℕ)
      (log : List (Event (AnyValue V)))
      → seq + 1 < 2 ^ 63
      → InOrder v log
      → let r =
          serve_call
            (record { ctx_err = ctx_err; id = id; once_key = once_key; result = result })
            seq
            log in
        Served id seq log r.1 r.2
  unfolding run_once_grid
  serve_call-Served (some e) id once_key result seq log small o =
      (refl, o, inl (refl, (text e, log, refl, refl)))
  serve_call-Served none id once_key (inl e) seq log small o =
      (refl, o, inl (refl, (text e, handler_ran ∷ log, refl, refl)))
  serve_call-Served none id once_key (inr payload) seq log small o =
      elim (Option-cases (v.of_grid once_key payload)) [
        | inl taken ↦ rw taken (refl, (taken, o), inr (ground arith, (_, refl, refl)))
        | inr (e, refused) ↦ rw refused (refl, o, inl (refl, (text e, _, refl, refl)))
      ]

  -- The tokens in the log are different past values of the counter.
  abbrev Fresh : ℕ → List (Event (AnyValue V)) → Type 0
  Fresh seq log = All (IsPast seq) (tokens log) × AllDistinct (tokens log)

  Ends-Fresh :
      (id seq seq' : ℕ) (log log' : List (Event (AnyValue V)))
      → seq + 1 < 2 ^ 63
      → Fresh seq log
      → Ends id seq (tokens log) seq' log'
      → Fresh seq' log' × (seq' ≤ seq + 1)
  Ends-Fresh id seq seq' log log' small (p, d) (inl (e, (t, rest, l, q))) =
      let same : tokens log' ≡ tokens log = ap tokens l ∙ q in
      (
        (
          subst (All (IsPast seq')) (sym same) (subst (λ n. All (IsPast n) (tokens log)) (sym e) p),
          subst AllDistinct (sym same) d,
        ),
        omega (arith, e),
      )
  Ends-Fresh id seq seq' log log' small (p, d) (inr (e, (rest, l, q))) =
      let same : tokens log' ≡ format_int seq' ∷ tokens log =
        ap tokens l ∙ ap (λ ts. format_int seq' ∷ ts) q in
      let new : mem (format_int seq') (tokens log) ≡ false =
        subst (λ n. mem (format_int n) (tokens log) ≡ false) (sym e)
          (next_token_new seq (tokens log) small p) in
      let past : All (IsPast seq') (tokens log) =
        All-weaken (IsPast seq) (IsPast seq') (tokens log)
          (λ t (k, b, f). (k, omega (arith, b, e), f)) p in
      (
        (
          subst (All (IsPast seq')) (sym same) ((seq', omega arith, refl), past),
          subst AllDistinct (sym same) (new, d),
        ),
        omega (arith, e),
      )

  -- After `n` pushes, with the counter moved at most as often.
  abbrev IsServed : ℕ → ℕ → ℕ → List (Event (AnyValue V)) → Type 0
  IsServed start n seq log = (seq ≤ start + n) × (pushes log ≡ n) × InOrder v log × Fresh seq log

  IsServed-next :
      (start n seq : ℕ) (log : List (Event (AnyValue V))) (c : Call E)
      → start + n + 1 < 2 ^ 63
      → IsServed start n seq log
      → let r = serve_call c seq log in
        IsServed start (suc n) r.1 r.2 × Ends c.id seq (tokens log) r.1 r.2
  IsServed-next start n seq log c small (b, p, o, f) =
      let (p', o', e) =
        serve_call-Served c.ctx_err c.id c.once_key c.result seq log (omega (arith, b, small)) o in
      let (f', m) =
        Ends-Fresh c.id seq _ log (serve_call c seq log).2 (omega (arith, b, small)) f e in
      ((omega (arith, b, m), omega (arith, p, p'), o', f'), e)

  serve_calls-IsServed :
      (start n seq : ℕ) (log : List (Event (AnyValue V))) (cs : List (Call E))
      → start + n + length cs < 2 ^ 63
      → IsServed start n seq log
      → let r = serve_calls cs seq log in IsServed start (n + length cs) r.0 r.1
  serve_calls-IsServed start n seq log [] small h =
      let e : n ≡ n + 0 = omega arith in subst (λ m. IsServed start m seq log) e h
  serve_calls-IsServed start n seq log (c ∷ cs) small h =
      let r = serve_call c seq log in
      let h' = (IsServed-next start n seq log c (omega (arith, small)) h).0 in
      let e : suc n + length cs ≡ n + suc (length cs) = omega arith in
      let out = serve_calls cs r.1 r.2 in
      subst (λ m. IsServed start m out.0 out.1) e
        (serve_calls-IsServed start (suc n) r.1 r.2 cs (omega (arith, small)) h')

  -- Take any calls of RunOnceGrid, one after the other, and a last one, whatever their handlers return
  -- and whatever fails, with a counter that stays below 2 ^ 63. There are as many pushes as calls; a
  -- value is pushed only straight after a grid that the host took; and no two readiness tokens are
  -- equal. The last push is on the last call's topic: an error's text, with the counter as it was, or
  -- the token of the counter's next value.
  pub run_once_grid_order :
      (calls : List (Call E)) (last : Call E) (start : ℕ)
      → start + length calls + 1 < 2 ^ 63
      → let (seq, log) = serve_calls calls start [] in
        let (r, seq', log') = serve_call last seq log in
        (pushes log' ≡ suc (length calls))
        × InOrder v log'
        × AllDistinct (tokens log')
        × Ends last.id seq (tokens log) seq' log'
  run_once_grid_order calls last start small =
      let h =
        serve_calls-IsServed start 0 start [] calls (omega (arith, small))
          (omega arith, refl, tt, (tt, tt)) in
      let out = serve_calls calls start [] in
      let zero_out : 0 + length calls ≡ length calls = omega arith in
      let h' = subst (λ n. IsServed start n out.0 out.1) zero_out h in
      let ((b, p, o, f), e) =
        IsServed-next start (length calls) out.0 out.1 last (omega (arith, small)) h' in
      (p, o, f.1, e)
