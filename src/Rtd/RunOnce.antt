-- ===== src/Rtd/RunOnce.antt =====
-- RunOnce and RunOnceGrid of pkg/rtd/runonce.go. The manager is an interface, over any state and any
-- error; a handler is a function of that state; `text` is the text of an error. `none` stands for nil.
pub mod Recording
pub mod Order
use xll_gen.Prelude.{
  ℕ, ◌+◌, ◌-◌, ◌%◌, ◌^◌, ◌⊎◌, inl, inr, List, ◌∷◌, Option, none, some, ltb, if◌then◌else◌, Text,
  itoa,
}
use Prim.Native.String.{String}

-- `updateSender` and `gridSender`.
pub record GridSender {ℓ κ ν} (V : Type ℓ) (E : Type κ) (S : Type ν) : Type (ℓ ⊔ κ ⊔ ν) where
  pub send_update : ℕ → V → S → Option E × S
  pub send_error_update : ℕ → String → S → Option E × S
  pub send_once_grid : String → List ℕ → S → Option E × S

pub data RunError {κ} (E : Type κ) : Type κ where
  nil_handler nil_manager : RunError E
  push_failed : E → RunError E

abbrev pub push_error {κ} : {E : Type κ} → Option E → Option (RunError E)
push_error none = none
push_error (some e) = some (push_failed e)

abbrev pub pushed {κ ν} : {E : Type κ} {S : Type ν} → Option E × S → Option (RunError E) × S
pushed r = (push_error r.0, r.1)

-- A value of type `any`: a string, or something else.
pub data AnyValue {ℓ} (V : Type ℓ) : Type ℓ where
  text_value : Text → AnyValue V
  other_value : V → AnyValue V

-- The counter is process-wide, an int64 as its 64 bits; atomic.AddInt64 wraps around.
abbrev pub next_seq : ℕ → ℕ
next_seq seq = (seq + 1) % 2 ^ 64

-- The int64 in decimal; from 2 ^ 63 on the bits stand for a negative number.
unfoldable pub format_int : ℕ → Text
format_int w = if ltb w (2 ^ 63) then itoa w else b'-' ∷ itoa (2 ^ 64 - w)

-- The token, and the counter's new value.
abbrev pub ready_token : ℕ → Text × ℕ
ready_token seq = let n = next_seq seq in (format_int n, n)

module _ {ℓ κ ν} {V : Type ℓ} {E : Type κ} {S : Type ν} (text : E → String) where
  abbrev push_outcome : GridSender V E S → ℕ → (E ⊎ V) × S → Option (RunError E) × S
  push_outcome mgr id (inl e, s) = pushed (mgr.send_error_update id (text e) s)
  push_outcome mgr id (inr v, s) = pushed (mgr.send_update id v s)

  -- `ctx_err` is `ctx.Err()`.
  pub run_once :
      Option E
      → Option (GridSender V E S)
      → ℕ
      → Option (S → (E ⊎ V) × S)
      → S
      → Option (RunError E) × S
  run_once ctx_err mgr id none s = (some nil_handler, s)
  run_once ctx_err none id (some fn) s = (some nil_manager, s)
  run_once (some e) (some mgr) id (some fn) s = pushed (mgr.send_error_update id (text e) s)
  run_once none (some mgr) id (some fn) s = push_outcome mgr id (fn s)

  -- The counter's new value comes second.
  abbrev signal_ready :
      GridSender (AnyValue V) E S → ℕ → ℕ → Option E × S → Option (RunError E) × ℕ × S
  signal_ready mgr id seq (some e, s) =
      let (r, s') = pushed (mgr.send_error_update id (text e) s) in (r, seq, s')
  signal_ready mgr id seq (none, s) =
      let (token, seq') = ready_token seq in
      let (r, s') = pushed (mgr.send_update id (text_value token) s) in (r, seq', s')

  abbrev deliver_grid :
      GridSender (AnyValue V) E S → ℕ → String → ℕ → (E ⊎ List ℕ) × S → Option (RunError E) × ℕ × S
  deliver_grid mgr id once_key seq (inl e, s) =
      let (r, s') = pushed (mgr.send_error_update id (text e) s) in (r, seq, s')
  deliver_grid mgr id once_key seq (inr payload, s) =
      signal_ready mgr id seq (mgr.send_once_grid once_key payload s)

  unfoldable pub run_once_grid :
      Option E
      → Option (GridSender (AnyValue V) E S)
      → ℕ
      → String
      → Option (S → (E ⊎ List ℕ) × S)
      → ℕ
      → S
      → Option (RunError E) × ℕ × S
  run_once_grid ctx_err mgr id once_key none seq s = (some nil_handler, seq, s)
  run_once_grid ctx_err none id once_key (some run) seq s = (some nil_manager, seq, s)
  run_once_grid (some e) (some mgr) id once_key (some run) seq s =
      let (r, s') = pushed (mgr.send_error_update id (text e) s) in (r, seq, s')
  run_once_grid none (some mgr) id once_key (some run) seq s =
      deliver_grid mgr id once_key seq (run s)
