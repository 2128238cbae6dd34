-- ===== src/Server/CommandBatcher/Replay.antt =====
-- A history of schedules and flushes (pkg/server/command_batcher.go, command_flush.go): the commands that
-- it sends do to every cell what the calls say, in their order.
use xll_gen.Prelude.{
  ◌≡◌, refl, ap, ◌∙◌, ◌⊎◌, List, [], ◌∷◌, ◌++◌, if◌then◌else◌, Option, none, some, HasTest,
}
use xll_gen.Algo.GreedyMesh.{Cell}
use xll_gen.Server.CommandBatcher.{
  Range, QueuedCommand, CommandBatcher, flush_buffers, flush_commands, cell_eq, or_empty,
  schedule_set, schedule_format, new_command_batcher,
}
use xll_gen.Server.CommandBatcher.Effect.{after, after-append, override}
use xll_gen.Server.CommandBatcher.View.{in_range, IsValid, set_writes, format_writes}
use xll_gen.Server.CommandBatcher.Schedules.{
  content, schedule_value-sets, schedule_value-formats, schedule_value-IsValid,
  schedule_format-sets, schedule_format-formats, schedule_format-IsValid, flush_commands_all,
}

-- The calls of user functions, and the end of a calculation, which flushes.
pub data Call {σ φ α} (S : Type σ) (F : Type φ) (A : Type α) : Type (σ ⊔ φ ⊔ α) where
  set_called : Range S → A → Call S F A
  format_called : Range S → F → Call S F A
  calc_ended : Call S F A

module _ {σ φ α} {S : Type σ} {F : Type φ} {A : Type α} ⦃s : HasTest S⦄ where
  -- The format that a call gives the cell.
  abbrev pub format_given : S → Cell → Call S F A → Option F
  format_given sheet c (set_called r a) = none
  format_given sheet c (format_called r x) = if in_range sheet c r then some x else none
  format_given sheet c calc_ended = none

  -- The value that a call gives the cell.
  abbrev pub set_given {ν} : {V : Type ν} → (A → Option V) → S → Cell → Call S F A → Option (V ⊎ A)
  set_given to_scalar sheet c (set_called r a) =
      if in_range sheet c r then some (content a (to_scalar a)) else none
  set_given to_scalar sheet c (format_called r x) = none
  set_given to_scalar sheet c calc_ended = none

-- The batcher, and all commands sent so far.
abbrev pub History {σ ν φ α} : Type σ → Type ν → Type φ → Type α → Type (σ ⊔ ν ⊔ φ ⊔ α)
History S V F A = CommandBatcher S V F A × List (QueuedCommand S V F A)

abbrev pub started {σ ν φ α} : (S : Type σ) (V : Type ν) (F : Type φ) (A : Type α) → History S V F A
started S V F A = (new_command_batcher S V F A, [])

module _ {σ ν φ α} {S : Type σ} {V : Type ν} {F : Type φ} {A : Type α} ⦃s : HasTest S⦄
    ⦃v : HasTest V⦄ ⦃f : HasTest F⦄ (to_scalar : A → Option V) where
  abbrev pub step : Call S F A → History S V F A → History S V F A
  step (set_called r a) (cb, sent) = (schedule_set to_scalar r a cb, sent)
  step (format_called r x) (cb, sent) = (schedule_format r x cb, sent)
  step calc_ended (cb, sent) =
      let (commands, cb') = flush_commands cb in (cb', sent ++ or_empty commands)

  abbrev pub run : List (Call S F A) → History S V F A → History S V F A
  run [] h = h
  run (k ∷ calls) h = run calls (step k h)

  -- All commands, once the last flush is made.
  abbrev pub sent_by : History S V F A → List (QueuedCommand S V F A)
  sent_by h = (step calc_ended h).1

  abbrev shown {μ} : {Y : Type μ} → (QueuedCommand S V F A → Option Y) → History S V F A → Option Y
  shown w (cb, sent) = after w (after w none sent) (flush_buffers cb).cmd_queue

  flushed-shown {μ} :
      {Y : Type μ} (w : QueuedCommand S V F A → Option Y) (cb : CommandBatcher S V F A)
      (sent : List (QueuedCommand S V F A))
      → shown w (step calc_ended (cb, sent)) ≡ shown w (cb, sent)
  flushed-shown w cb sent =
      let (all, left, valid) = flush_commands_all cb in
      let d = after w none (sent ++ or_empty (flush_commands cb).0) in
      ap (after w d) left
      ∙ after-append w none sent (or_empty (flush_commands cb).0)
      ∙ ap (after w (after w none sent)) all

  step-IsValid : (k : Call S F A) (h : History S V F A) → IsValid h.0 → IsValid (step k h).0
  step-IsValid (set_called r a) (cb, sent) h = schedule_value-IsValid r a (to_scalar a) cb h
  step-IsValid (format_called r x) (cb, sent) h = schedule_format-IsValid r x cb h
  step-IsValid calc_ended (cb, sent) h = let (all, left, valid) = flush_commands_all cb in valid

  module _ (sheet : S) (c : Cell) where
    step-sets :
        (k : Call S F A) (h : History S V F A)
        → IsValid h.0
        → shown (set_writes sheet c) (step k h)
          ≡ override (set_given to_scalar sheet c k) (shown (set_writes sheet c) h)
    step-sets (set_called r a) (cb, sent) h =
        schedule_value-sets sheet c r a (to_scalar a) (after (set_writes sheet c) none sent) cb h
    step-sets (format_called r x) (cb, sent) h =
        schedule_format-sets sheet c r x (after (set_writes sheet c) none sent) cb h
    step-sets calc_ended (cb, sent) h = flushed-shown (set_writes sheet c) cb sent

    step-formats :
        (k : Call S F A) (h : History S V F A)
        → IsValid h.0
        → shown (format_writes sheet c) (step k h)
          ≡ override (format_given sheet c k) (shown (format_writes sheet c) h)
    step-formats (set_called r a) (cb, sent) h =
        schedule_value-formats sheet c r a (to_scalar a) (after (format_writes sheet c) none sent)
          cb h
    step-formats (format_called r x) (cb, sent) h =
        schedule_format-formats sheet c r x (after (format_writes sheet c) none sent) cb h
    step-formats calc_ended (cb, sent) h = flushed-shown (format_writes sheet c) cb sent

    run-sets :
        (calls : List (Call S F A)) (h : History S V F A)
        → IsValid h.0
        → shown (set_writes sheet c) (run calls h)
          ≡ after (set_given to_scalar sheet c) (shown (set_writes sheet c) h) calls
    run-sets [] h v = refl
    run-sets (k ∷ calls) h v =
        run-sets calls (step k h) (step-IsValid k h v)
        ∙ ap (λ o. after (set_given to_scalar sheet c) o calls) (step-sets k h v)

    run-formats :
        (calls : List (Call S F A)) (h : History S V F A)
        → IsValid h.0
        → shown (format_writes sheet c) (run calls h)
          ≡ after (format_given sheet c) (shown (format_writes sheet c) h) calls
    run-formats [] h v = refl
    run-formats (k ∷ calls) h v =
        run-formats calls (step k h) (step-IsValid k h v)
        ∙ ap (λ o. after (format_given sheet c) o calls) (step-formats k h v)

flushed_nothing {σ ν φ α μ} :
    {S : Type σ} {V : Type ν} {F : Type φ} {A : Type α} {Y : Type μ} ⦃v : HasTest V⦄ ⦃f : HasTest F⦄
    (w : QueuedCommand S V F A → Option Y)
    → after w none (flush_buffers (new_command_batcher S V F A)).cmd_queue ≡ none
unfolding flush_buffers new_command_batcher
flushed_nothing w = refl

-- Take any history of ScheduleSet and ScheduleFormat calls with flushes among them, from a new batcher,
-- and flush once more. Carried out in the order they were sent, all the commands leave every cell of every
-- sheet with the value of the last set call whose range has the cell, and with the format of the last
-- format call, and touch no cell that no call named: buffering, meshing, batching and the bypass of large
-- ranges change nothing.
pub commands_replay {σ ν φ α} :
    {S : Type σ} {V : Type ν} {F : Type φ} {A : Type α} ⦃s : HasTest S⦄ ⦃v : HasTest V⦄
    ⦃f : HasTest F⦄ (to_scalar : A → Option V) (calls : List (Call S F A)) (sheet : S) (c : Cell)
    → let sent = sent_by to_scalar (run to_scalar calls (started S V F A)) in
      (after (set_writes sheet c) none sent ≡ after (set_given to_scalar sheet c) none calls)
      × (after (format_writes sheet c) none sent ≡ after (format_given sheet c) none calls)
unfolding new_command_batcher
commands_replay {S = S} {V = V} {F = F} {A = A} to_scalar calls sheet c =
    let start = started S V F A in
    let h = run to_scalar calls start in
    let all = (flush_commands_all h.0).0 in
    let no_sets : shown to_scalar (set_writes sheet c) start ≡ none =
      flushed_nothing (set_writes sheet c) in
    let no_formats : shown to_scalar (format_writes sheet c) start ≡ none =
      flushed_nothing (format_writes sheet c) in
    (
      after-append (set_writes sheet c) none h.1 (or_empty (flush_commands h.0).0)
          ∙ ap (after (set_writes sheet c) (after (set_writes sheet c) none h.1)) all
          ∙ run-sets to_scalar sheet c calls start ((tt, tt), (tt, tt))
          ∙ ap (λ o. after (set_given to_scalar sheet c) o calls) no_sets,
      after-append (format_writes sheet c) none h.1 (or_empty (flush_commands h.0).0)
          ∙ ap (after (format_writes sheet c) (after (format_writes sheet c) none h.1)) all
          ∙ run-formats to_scalar sheet c calls start ((tt, tt), (tt, tt))
          ∙ ap (λ o. after (format_given sheet c) o calls) no_formats,
    )
