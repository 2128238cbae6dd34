-- ===== src/Server/SystemHandler/Cycles.antt =====
-- What the reference cache holds along the calls of the handlers, and what the end of a calculation leaves
-- (pkg/server/handlers.go, refcache.go).
use xll_gen.Prelude.{
  ℕ, ◌≡◌, refl, ap, ◌∙◌, Bool, List, [], ◌∷◌, Option, none, some, if◌then◌else◌, ◌==◌, nat_eq,
  text_eq, HasTest, Text, lookup-insert, lookup,
}
use xll_gen.Server.CommandBatcher.{QueuedCommand}
use xll_gen.Server.RefCache.{
  RefCache, get, set, clear_cache, no_payload, Resolved, unresolved, resolve_ref_any, value_or,
  resolve_in, alt_or,
}
use xll_gen.Server.SystemHandler.{
  SystemHandler, Outcome, UserHandler, run_user, handle_set_ref_cache, handle_rtd_connect,
  handle_rtd_disconnect, handle_calculation_canceled, handle_calculation_ended,
  handle_command_invoke,
}

-- The messages that a handler serves.
pub data Call {σ ν φ α κ} (S : Type σ) (V : Type ν) (F : Type φ) (A : Type α) (C : Type κ)
    : Type (σ ⊔ ν ⊔ φ ⊔ α ⊔ κ) where
  set_ref_cache : Text → List ℕ → Call S V F A C
  rtd_connect : ℕ → List Text → Bool → ℕ → Call S V F A C
  rtd_disconnect : ℕ → Call S V F A C
  calculation_canceled : Option (UserHandler S V F A C) → Call S V F A C
  calculation_ended : Option (UserHandler S V F A C) → Call S V F A C
  command_invoke : Text → Text → Call S V F A C

-- The token of a key.
abbrev pub token : Text → Text
token key = b'h' ∷ b':' ∷ key

module _ {ω} {W : Type ω} (value_of : List ℕ → Option W) where
  -- The payload under the token is read first, then the one under the key.
  abbrev pub first_payload : Text → Option (List ℕ) → Option (List ℕ) → Resolved W
  first_payload key (some p) q = value_or value_of (token key) (value_of p)
  first_payload key none (some q) = value_or value_of key (value_of q)
  first_payload key none none = unresolved (no_payload (token key))

  alt_or-first_payload :
      (key : Text) (q : Option (List ℕ))
      → alt_or value_of (token key) key q ≡ first_payload key none q
  alt_or-first_payload key none = refl
  alt_or-first_payload key (some q) = refl

  resolve_in-first_payload :
      (c : RefCache) (key : Text) (p : Option (List ℕ))
      → resolve_in value_of c (token key) p ≡ first_payload key p (get c key)
  resolve_in-first_payload c key none = alt_or-first_payload key (get c key)
  resolve_in-first_payload c key (some p) = refl

  resolve-first_payload :
      (c : RefCache) (key : Text)
      → resolve_ref_any value_of (some c) (token key)
        ≡ first_payload key (get c (token key)) (get c key)
  unfolding resolve_ref_any
  resolve-first_payload c key = resolve_in-first_payload c key (get c (token key))

module _ {σ ν φ α κ} {S : Type σ} {V : Type ν} {F : Type φ} {A : Type α} {C : Type κ} where
  -- The payload last stored for the key since the last end of a calculation.
  abbrev pub last_payload : Text → List (Call S V F A C) → Option (List ℕ) → Option (List ℕ)
  last_payload key [] p = p
  last_payload key (set_ref_cache k data' ∷ calls) p =
      last_payload key calls (if k == key then some data' else p)
  last_payload key (calculation_ended f ∷ calls) p = last_payload key calls none
  last_payload key (rtd_connect topic strings new_val cancel ∷ calls) p = last_payload key calls p
  last_payload key (rtd_disconnect topic ∷ calls) p = last_payload key calls p
  last_payload key (calculation_canceled f ∷ calls) p = last_payload key calls p
  last_payload key (command_invoke name id ∷ calls) p = last_payload key calls p

  last_payload_cons :
      (key : Text) (c : Call S V F A C) (calls : List (Call S V F A C)) (p : Option (List ℕ))
      → last_payload key calls (last_payload key (c ∷ []) p) ≡ last_payload key (c ∷ calls) p
  last_payload_cons key (set_ref_cache k data') calls p = refl
  last_payload_cons key (rtd_connect topic strings new_val cancel) calls p = refl
  last_payload_cons key (rtd_disconnect topic) calls p = refl
  last_payload_cons key (calculation_canceled f) calls p = refl
  last_payload_cons key (calculation_ended f) calls p = refl
  last_payload_cons key (command_invoke name id) calls p = refl

  pub run_user-ref_cache :
      (f : Option (UserHandler S V F A C)) (h : SystemHandler S V F A C)
      → (run_user f h).ref_cache ≡ h.ref_cache
  unfolding run_user
  run_user-ref_cache none h = refl
  run_user-ref_cache (some f) h = refl

  module _ ⦃v : HasTest V⦄ ⦃f : HasTest F⦄ (ack answer : List ℕ) (capacity : ℕ) (has_hook : Bool)
      (encode : List (QueuedCommand S V F A) → List ℕ) (encode_invoke : Option Text → List ℕ)
      (resolve : Text → Bool) where
    abbrev pub serve : Call S V F A C → SystemHandler S V F A C → Outcome (SystemHandler S V F A C)
    serve (set_ref_cache key data') h = handle_set_ref_cache ack capacity key data' h
    serve (rtd_connect topic strings new_val cancel) h =
        handle_rtd_connect answer capacity has_hook topic strings new_val cancel h
    serve (rtd_disconnect topic) h = handle_rtd_disconnect has_hook topic h
    serve (calculation_canceled g) h = handle_calculation_canceled g h
    serve (calculation_ended g) h = handle_calculation_ended encode capacity g h
    serve (command_invoke name id) h =
        handle_command_invoke encode_invoke capacity resolve name id h

    abbrev pub serve_all : List (Call S V F A C) → SystemHandler S V F A C → SystemHandler S V F A C
    serve_all [] h = h
    serve_all (c ∷ calls) h = serve_all calls (serve c h).handler

    serve-get :
        (c : Call S V F A C) (h : SystemHandler S V F A C) (key : Text)
        → get (serve c h).handler.ref_cache key ≡ last_payload key (c ∷ []) (get h.ref_cache key)
    unfolding handle_set_ref_cache handle_rtd_connect handle_rtd_disconnect
        handle_calculation_canceled handle_calculation_ended handle_command_invoke get set
        clear_cache
    serve-get (set_ref_cache k data') h key = lookup-insert k key data' h.ref_cache
    serve-get (rtd_connect topic strings new_val cancel) h key = refl
    serve-get (rtd_disconnect topic) h key = refl
    serve-get (calculation_canceled g) h key = ap (λ c. lookup key c) (run_user-ref_cache g h)
    serve-get (calculation_ended g) h key =
        ap (λ c. lookup key c) (run_user-ref_cache g (record h { ref_cache = [] }))
    serve-get (command_invoke name id) h key = refl

    serve_all-get :
        (calls : List (Call S V F A C)) (h : SystemHandler S V F A C) (key : Text)
        → get (serve_all calls h).ref_cache key ≡ last_payload key calls (get h.ref_cache key)
    serve_all-get [] h key = refl
    serve_all-get (c ∷ calls) h key =
        serve_all-get calls (serve c h).handler key
        ∙ ap (last_payload key calls) (serve-get c h key)
        ∙ last_payload_cons key c calls (get h.ref_cache key)

    module _ {ω} {W : Type ω} (value_of : List ℕ → Option W) where
      -- After any calls of the handlers, a composite argument resolves to the payload last stored since the
      -- last end of a calculation, under its token or else under its key, and to an error without one.
      pub serve_all-resolve_ref_any :
          (calls : List (Call S V F A C)) (h : SystemHandler S V F A C) (key : Text)
          → resolve_ref_any value_of (some (serve_all calls h).ref_cache) (token key)
            ≡ first_payload value_of key
                (last_payload (token key) calls (get h.ref_cache (token key)))
                (last_payload key calls (get h.ref_cache key))
      serve_all-resolve_ref_any calls h key =
          let a = serve_all-get calls h (token key) in
          let b = serve_all-get calls h key in
          resolve-first_payload value_of (serve_all calls h).ref_cache key
          ∙ (λ i. first_payload value_of key (a i) (b i))
