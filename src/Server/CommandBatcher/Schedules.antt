-- ===== src/Server/CommandBatcher/Schedules.antt =====
-- What ScheduleSet, ScheduleFormat and FlushCommands do to what a cell shows in the end
-- (pkg/server/command_batcher.go, command_flush.go).
use xll_gen.Prelude.{
  ◌≡◌, refl, ap, subst, sym, ◌∙◌, ◌⊎◌, inl, inr, Bool, true, false, List, [], ◌∷◌, ◌++◌,
  if◌then◌else◌, Option, none, some, HasTest, lookup, Bool-cases,
}
use xll_gen.Algo.GreedyMesh.{Cell}
use xll_gen.Server.CommandBatcher.{
  Range, QueuedCommand, set_scalar, set_format, set_data, CommandBatcher, flush_buffers, enqueue,
  flush_commands, is_empty, is_large, cell_eq, buffer, buffer_of, or_empty, schedule_value,
  schedule_format,
}
use xll_gen.Server.CommandBatcher.Effect.{after, after-append, override}
use xll_gen.Server.CommandBatcher.Buffers.{AreDistinct, lookup-buffer, buffer-AreDistinct}
use xll_gen.Server.CommandBatcher.View.{
  map_option, in_range, IsValid, set_writes, format_writes, flush_buffers-empties,
  flush_buffers-idle, nil_of, flush_buffers-sets, flush_buffers-formats,
}

-- What a set gives a cell.
abbrev pub content {ν α} : {V : Type ν} {A : Type α} → A → Option V → V ⊎ A
content a none = inr a
content a (some x) = inl x

override_later {ξ μ} :
    {X : Type ξ} {Y : Type μ} (b : Bool) (g : X → Y) (x : X) (old : Option X) (d : Option Y)
    → override (map_option g (if b then some x else old)) d
      ≡ override (if b then some (g x) else none) (override (map_option g old) d)
override_later true g x old d = refl
override_later false g x old d = refl

empty-AreDistinct {σ ξ} :
    {S : Type σ} ⦃s : HasTest S⦄ {X : Type ξ} (m : List (S × List (Cell × X)))
    → m ≡ []
    → AreDistinct m
empty-AreDistinct m e = subst AreDistinct (sym e) (tt, tt)

module _ {σ ν φ α} {S : Type σ} {V : Type ν} {F : Type φ} {A : Type α} ⦃s : HasTest S⦄
    ⦃v : HasTest V⦄ ⦃f : HasTest F⦄ where
  flush_buffers-IsValid : (cb : CommandBatcher S V F A) → IsValid (flush_buffers cb)
  flush_buffers-IsValid cb =
      let (a, b) = flush_buffers-empties cb in
      (
        empty-AreDistinct (flush_buffers cb).buffered_sets a,
        empty-AreDistinct (flush_buffers cb).buffered_formats b,
      )

  enqueue-IsValid :
      (k : QueuedCommand S V F A) (cb : CommandBatcher S V F A) → IsValid (enqueue k cb)
  unfolding enqueue
  enqueue-IsValid k cb = let h = flush_buffers-IsValid cb in (h.0, h.1)

  pub schedule_value-IsValid :
      (r : Range S) (a : A) (o : Option V) (cb : CommandBatcher S V F A)
      → IsValid cb
      → IsValid (schedule_value r a o cb)
  unfolding schedule_value
  schedule_value-IsValid r a none cb h = enqueue-IsValid (set_data r a) cb
  schedule_value-IsValid r a (some x) cb h = elim (Bool-cases (is_large r.refs)) [
    | inl y ↦ rw y (enqueue-IsValid (set_scalar r.sheet r.refs x) cb)
    | inr n ↦ rw n (buffer-AreDistinct r x cb.buffered_sets h.0, h.1)
  ]

  pub schedule_format-IsValid :
      (r : Range S) (x : F) (cb : CommandBatcher S V F A)
      → IsValid cb
      → IsValid (schedule_format r x cb)
  unfolding schedule_format
  schedule_format-IsValid r x cb h = elim (Bool-cases (is_large r.refs)) [
    | inl y ↦ rw y (enqueue-IsValid (set_format r.sheet r.refs x) cb)
    | inr n ↦ rw n (h.0, buffer-AreDistinct r x cb.buffered_formats h.1)
  ]

  -- A flush hands over the whole queue and leaves nothing.
  pub flush_commands_all :
      (cb : CommandBatcher S V F A)
      → (or_empty (flush_commands cb).0 ≡ (flush_buffers cb).cmd_queue)
        × ((flush_buffers (flush_commands cb).1).cmd_queue ≡ [])
        × IsValid (flush_commands cb).1
  unfolding flush_commands
  flush_commands_all cb =
      let cb' = flush_buffers cb in
      let rest : CommandBatcher S V F A = record cb' { cmd_queue = [] } in
      let (a, b) = flush_buffers-empties cb in
      let valid = flush_buffers-IsValid cb in
      elim (Bool-cases (is_empty cb'.cmd_queue)) [
        | inl y ↦
            let none_left = nil_of cb'.cmd_queue y in
            rw y (sym none_left, flush_buffers-idle cb' a b ∙ none_left, valid)
        | inr n ↦ rw n (refl, flush_buffers-idle rest a b, (valid.0, valid.1))
      ]

  module _ (sheet : S) (c : Cell) where
    enqueue-sets :
        (d : Option (V ⊎ A)) (k : QueuedCommand S V F A) (cb : CommandBatcher S V F A)
        → after (set_writes sheet c) d (flush_buffers (enqueue k cb)).cmd_queue
          ≡ override
              (set_writes sheet c k)
              (after (set_writes sheet c) d (flush_buffers cb).cmd_queue)
    unfolding enqueue
    enqueue-sets d k cb =
        let w = set_writes sheet c in
        let q = (flush_buffers cb).cmd_queue in
        let e = (flush_buffers-empties cb).0 in
        flush_buffers-sets sheet c d (enqueue k cb) (flush_buffers-IsValid cb)
        ∙ ap
            (λ m.
              override (map_option inl (lookup c (buffer_of sheet m))) (after w d (q ++ (k ∷ []))))
            e
        ∙ after-append w d q (k ∷ [])

    enqueue-formats :
        (d : Option F) (k : QueuedCommand S V F A) (cb : CommandBatcher S V F A)
        → after (format_writes sheet c) d (flush_buffers (enqueue k cb)).cmd_queue
          ≡ override
              (format_writes sheet c k)
              (after (format_writes sheet c) d (flush_buffers cb).cmd_queue)
    unfolding enqueue
    enqueue-formats d k cb =
        let w = format_writes sheet c in
        let q = (flush_buffers cb).cmd_queue in
        let e = (flush_buffers-empties cb).1 in
        flush_buffers-formats sheet c d (enqueue k cb) (flush_buffers-IsValid cb)
        ∙ ap
            (λ m.
              override (map_option (λ x. x) (lookup c (buffer_of sheet m)))
                (after w d (q ++ (k ∷ []))))
            e
        ∙ after-append w d q (k ∷ [])

    buffered-sets :
        (r : Range S) (x : V) (d : Option (V ⊎ A)) (cb : CommandBatcher S V F A)
        → IsValid cb
        → after
            (set_writes sheet c)
            d
            (flush_buffers (record cb { buffered_sets = buffer r x cb.buffered_sets })).cmd_queue
          ≡ override
              (if in_range sheet c r then some (inl x) else none)
              (after (set_writes sheet c) d (flush_buffers cb).cmd_queue)
    buffered-sets r x d cb h =
        let w = set_writes sheet c in
        let q = after w d cb.cmd_queue in
        let old = lookup c (buffer_of sheet cb.buffered_sets) in
        flush_buffers-sets sheet c d (record cb { buffered_sets = buffer r x cb.buffered_sets })
          (buffer-AreDistinct r x cb.buffered_sets h.0, h.1)
        ∙ ap (λ o. override (map_option inl o) q) (lookup-buffer r x cb.buffered_sets sheet c)
        ∙ override_later (in_range sheet c r) inl x old q
        ∙ ap (override (if in_range sheet c r then some (inl x) else none))
            (sym (flush_buffers-sets sheet c d cb h))

    pub schedule_value-sets :
        (r : Range S) (a : A) (o : Option V) (d : Option (V ⊎ A)) (cb : CommandBatcher S V F A)
        → IsValid cb
        → after (set_writes sheet c) d (flush_buffers (schedule_value r a o cb)).cmd_queue
          ≡ override
              (if in_range sheet c r then some (content a o) else none)
              (after (set_writes sheet c) d (flush_buffers cb).cmd_queue)
    unfolding schedule_value
    schedule_value-sets r a none d cb h = enqueue-sets d (set_data r a) cb
    schedule_value-sets r a (some x) d cb h = elim (Bool-cases (is_large r.refs)) [
      | inl y ↦ rw y (enqueue-sets d (set_scalar r.sheet r.refs x) cb)
      | inr n ↦ rw n (buffered-sets r x d cb h)
    ]

    pub schedule_value-formats :
        (r : Range S) (a : A) (o : Option V) (d : Option F) (cb : CommandBatcher S V F A)
        → IsValid cb
        → after (format_writes sheet c) d (flush_buffers (schedule_value r a o cb)).cmd_queue
          ≡ after (format_writes sheet c) d (flush_buffers cb).cmd_queue
    unfolding schedule_value
    schedule_value-formats r a none d cb h = enqueue-formats d (set_data r a) cb
    schedule_value-formats r a (some x) d cb h = elim (Bool-cases (is_large r.refs)) [
      | inl y ↦ rw y (enqueue-formats d (set_scalar r.sheet r.refs x) cb)
      | inr n ↦
          let cb' = record cb { buffered_sets = buffer r x cb.buffered_sets } in
          let valid : IsValid cb' = (buffer-AreDistinct r x cb.buffered_sets h.0, h.1) in
          rw n
            (flush_buffers-formats sheet c d cb' valid ∙ sym (flush_buffers-formats sheet c d cb h))
    ]

    pub schedule_format-formats :
        (r : Range S) (x : F) (d : Option F) (cb : CommandBatcher S V F A)
        → IsValid cb
        → after (format_writes sheet c) d (flush_buffers (schedule_format r x cb)).cmd_queue
          ≡ override
              (if in_range sheet c r then some x else none)
              (after (format_writes sheet c) d (flush_buffers cb).cmd_queue)
    unfolding schedule_format
    schedule_format-formats r x d cb h = elim (Bool-cases (is_large r.refs)) [
      | inl y ↦ rw y (enqueue-formats d (set_format r.sheet r.refs x) cb)
      | inr n ↦
          let q = after (format_writes sheet c) d cb.cmd_queue in
          let old = lookup c (buffer_of sheet cb.buffered_formats) in
          let cb' = record cb { buffered_formats = buffer r x cb.buffered_formats } in
          let valid : IsValid cb' = (h.0, buffer-AreDistinct r x cb.buffered_formats h.1) in
          rw n (
            flush_buffers-formats sheet c d cb' valid
            ∙ ap (λ o. override (map_option (λ y. y) o) q)
                (lookup-buffer r x cb.buffered_formats sheet c)
            ∙ override_later (in_range sheet c r) (λ y. y) x old q
            ∙ ap (override (if in_range sheet c r then some x else none))
                (sym (flush_buffers-formats sheet c d cb h)))
    ]

    pub schedule_format-sets :
        (r : Range S) (x : F) (d : Option (V ⊎ A)) (cb : CommandBatcher S V F A)
        → IsValid cb
        → after (set_writes sheet c) d (flush_buffers (schedule_format r x cb)).cmd_queue
          ≡ after (set_writes sheet c) d (flush_buffers cb).cmd_queue
    unfolding schedule_format
    schedule_format-sets r x d cb h = elim (Bool-cases (is_large r.refs)) [
      | inl y ↦ rw y (enqueue-sets d (set_format r.sheet r.refs x) cb)
      | inr n ↦
          let cb' = record cb { buffered_formats = buffer r x cb.buffered_formats } in
          let valid : IsValid cb' = (h.0, buffer-AreDistinct r x cb.buffered_formats h.1) in
          rw n (flush_buffers-sets sheet c d cb' valid ∙ sym (flush_buffers-sets sheet c d cb h))
    ]
