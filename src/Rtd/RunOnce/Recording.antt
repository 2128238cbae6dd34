-- ===== src/Rtd/RunOnce/Recording.antt =====
-- A manager that records what RunOnceGrid (pkg/rtd/runonce.go) asks of it.
use xll_gen.Prelude.{ℕ, suc, ◌≡◌, ◌⊎◌, List, [], ◌∷◌, Option, none, Text}
use Prim.Native.String.{String}
use xll_gen.Rtd.RunOnce.{GridSender, AnyValue, text_value, other_value}

-- What a manager and a handler were called with.
pub data Event {ℓ} (V : Type ℓ) : Type ℓ where
  handler_ran : Event V
  update_sent : ℕ → V → Event V
  error_sent : ℕ → String → Event V
  grid_sent : String → List ℕ → Event V

-- What a recording manager answers to each call.
pub record Verdicts {ℓ κ} (V : Type ℓ) (E : Type κ) : Type (ℓ ⊔ κ) where
  pub of_update : ℕ → V → Option E
  pub of_error : ℕ → String → Option E
  pub of_grid : String → List ℕ → Option E

module _ {ℓ κ} {V : Type ℓ} {E : Type κ} (v : Verdicts V E) where
  abbrev pub recording : GridSender V E (List (Event V))
  recording = record {
    send_update = λ id x log. (v.of_update id x, update_sent id x ∷ log);
    send_error_update = λ id t log. (v.of_error id t, error_sent id t ∷ log);
    send_once_grid = λ key p log. (v.of_grid key p, grid_sent key p ∷ log);
  }

abbrev pub logged {ℓ κ μ} :
    {V : Type ℓ} {A : Type κ} {B : Type μ} → A ⊎ B → List (Event V) → (A ⊎ B) × List (Event V)
logged r log = (r, handler_ran ∷ log)

-- How often something was pushed to a topic.
abbrev pub pushes {ℓ} : {V : Type ℓ} → List (Event V) → ℕ
pushes [] = 0
pushes (handler_ran ∷ log) = pushes log
pushes (grid_sent k p ∷ log) = pushes log
pushes (update_sent id x ∷ log) = suc (pushes log)
pushes (error_sent id t ∷ log) = suc (pushes log)

-- The newest event first: a value is pushed only straight after a grid that the host took.
abbrev pub InOrder {ℓ} : {V : Type ℓ} {E : Type 0} → Verdicts V E → List (Event V) → Type 0
InOrder v [] = Unit
InOrder v (update_sent id x ∷ grid_sent k p ∷ log) = (v.of_grid k p ≡ none) × InOrder v log
InOrder v (update_sent id x ∷ log) = ⊥
InOrder v (e ∷ log) = InOrder v log

-- The texts pushed as values.
abbrev pub tokens {ℓ} : {V : Type ℓ} → List (Event (AnyValue V)) → List Text
tokens [] = []
tokens (handler_ran ∷ log) = tokens log
tokens (grid_sent k p ∷ log) = tokens log
tokens (error_sent id t ∷ log) = tokens log
tokens (update_sent id (text_value t) ∷ log) = t ∷ tokens log
tokens (update_sent id (other_value x) ∷ log) = tokens log
