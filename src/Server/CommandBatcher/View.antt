-- ===== src/Server/CommandBatcher/View.antt =====
-- What a cell shows once all commands are carried out, and what each operation does to that
-- (pkg/server/command_batcher.go, command_flush.go).
use xll_gen.Prelude.{
  ◌≡◌, refl, ap, sym, ◌∙◌, ◌⊎◌, inl, inr, Bool, true, ◌&&◌, List, [], ◌∷◌, ◌++◌, if◌then◌else◌,
  Option, none, some, HasTest, ◌==◌, lookup, Bool-cases, length,
}
use xll_gen.Algo.GreedyMesh.{Cell, Rect, greedy_mesh}
use xll_gen.Server.CommandBatcher.{
  Range, QueuedCommand, set_scalar, set_format, set_data, CommandBatcher, flush_buffers, is_empty,
  buffer_of, sheet_commands, cell_eq, group_commands, commands_of, batches, by_value,
}
use xll_gen.Server.CommandBatcher.Effect.{hit, after, after-append, override, show_or}
use xll_gen.Server.CommandBatcher.Flushed.{after-sheet_commands}
use xll_gen.Server.CommandBatcher.Buffers.{AreDistinct}

abbrev pub map_option {ξ μ} : {X : Type ξ} {Y : Type μ} → (X → Y) → Option X → Option Y
map_option f none = none
map_option f (some x) = some (f x)

show_or-override {ξ μ} :
    {X : Type ξ} {Y : Type μ} ⦃e : HasTest X⦄ (f : X → Y) (c : Cell) (d : Option Y) (o : Option X)
    → show_or f c d o ≡ override (map_option f o) d
show_or-override f c d none = refl
show_or-override f c d (some x) = refl

pub append_nil {κ} : {B : Type κ} (bs : List B) → bs ++ [] ≡ bs
append_nil [] = refl
append_nil (b ∷ bs) = ap (◌∷◌ b) (append_nil bs)

pub nil_of {κ} : {B : Type κ} (bs : List B) → is_empty bs ≡ true → bs ≡ []
nil_of [] h = refl
nil_of (b ∷ bs) h = absurd cc

both_empty {κ μ} :
    {B : Type κ} {C : Type μ} (bs : List B) (cs : List C)
    → (is_empty bs && is_empty cs) ≡ true
    → (bs ≡ []) × (cs ≡ [])
both_empty [] [] h = (refl, refl)
both_empty [] (c ∷ cs) h = absurd cc
both_empty (b ∷ bs) cs h = absurd cc

abbrev pub in_range {σ} : {S : Type σ} ⦃s : HasTest S⦄ → S → Cell → Range S → Bool
in_range sheet c r = (r.sheet == sheet) && hit c r.refs

module _ {σ ν φ α} {S : Type σ} {V : Type ν} {F : Type φ} {A : Type α} ⦃s : HasTest S⦄ where
  abbrev pub IsValid : CommandBatcher S V F A → Type (ν ⊔ φ)
  IsValid cb = AreDistinct cb.buffered_sets × AreDistinct cb.buffered_formats

  -- The value that a command gives the cell: a scalar, or a value carried whole.
  abbrev pub set_writes : S → Cell → QueuedCommand S V F A → Option (V ⊎ A)
  set_writes sheet c (set_scalar t rects x) =
      if (t == sheet) && hit c rects then some (inl x) else none
  set_writes sheet c (set_format t rects x) = none
  set_writes sheet c (set_data r a) = if in_range sheet c r then some (inr a) else none

  abbrev pub format_writes : S → Cell → QueuedCommand S V F A → Option F
  format_writes sheet c (set_scalar t rects x) = none
  format_writes sheet c (set_format t rects x) =
      if (t == sheet) && hit c rects then some x else none
  format_writes sheet c (set_data r a) = none

  abbrev pub held_set : S → Cell → CommandBatcher S V F A → Option (V ⊎ A)
  held_set sheet c cb = map_option inl (lookup c (buffer_of sheet cb.buffered_sets))

  abbrev pub held_format : S → Cell → CommandBatcher S V F A → Option F
  held_format sheet c cb = map_option (λ x. x) (lookup c (buffer_of sheet cb.buffered_formats))

  module _ {ξ μ} {X : Type ξ} {Y : Type μ} (make : S → List Rect → X → QueuedCommand S V F A)
      (writes : QueuedCommand S V F A → Option Y)
      (idle : (t : S) (rects : List Rect) (x : X) → writes (make t rects x) ≡ none) where
    commands_of-idle :
        (d : Option Y) (t : S) (x : X) (bs : List (List Rect))
        → after writes d (commands_of make t x bs) ≡ d
    commands_of-idle d t x [] = refl
    commands_of-idle d t x (b ∷ bs) =
        commands_of-idle (override (writes (make t b x)) d) t x bs
        ∙ ap (λ o. override o d) (idle t b x)

    group_commands-idle :
        (d : Option Y) (t : S) (groups : List (X × List Cell))
        → after writes d (group_commands make t groups) ≡ d
    group_commands-idle d t [] = refl
    group_commands-idle d t ((x, cells) ∷ groups) =
        let rects = greedy_mesh cells in
        let mine = commands_of make t x (batches (length rects) rects) in
        after-append writes d mine (group_commands make t groups)
        ∙ group_commands-idle (after writes d mine) t groups
        ∙ commands_of-idle d t x (batches (length rects) rects)

    sheet_commands-idle :
        ⦃e : HasTest X⦄ (d : Option Y) (sheets : List (S × List (Cell × X)))
        → after writes d (sheet_commands make sheets) ≡ d
    sheet_commands-idle d [] = refl
    sheet_commands-idle d ((t, cells) ∷ sheets) =
        let mine = group_commands make t (by_value cells []) in
        after-append writes d mine (sheet_commands make sheets)
        ∙ sheet_commands-idle (after writes d mine) sheets
        ∙ group_commands-idle d t (by_value cells [])

  module _ ⦃v : HasTest V⦄ ⦃f : HasTest F⦄ where
    -- The early return of an empty flush gives what the loops would.
    pub flush_buffers-queue :
        (cb : CommandBatcher S V F A)
        → (flush_buffers cb).cmd_queue
          ≡ cb.cmd_queue
            ++ (sheet_commands set_scalar cb.buffered_sets
                ++ sheet_commands set_format cb.buffered_formats)
    unfolding flush_buffers
    flush_buffers-queue cb =
        let q = cb.cmd_queue in
        elim (Bool-cases (is_empty cb.buffered_sets && is_empty cb.buffered_formats)) [
          | inl y ↦
              let (a, b) = both_empty cb.buffered_sets cb.buffered_formats y in
              ap
                (λ t.
                  (if t then cb else record {
                    buffered_sets = [];
                    buffered_formats = [];
                    cmd_queue =
                        q
                        ++ (sheet_commands set_scalar cb.buffered_sets
                            ++ sheet_commands set_format cb.buffered_formats);
                  }).cmd_queue)
                y
              ∙ sym (append_nil q)
              ∙ sym (
                  ap
                    (λ m.
                      q
                      ++ (sheet_commands set_scalar m
                          ++ sheet_commands set_format cb.buffered_formats))
                    a
                  ∙ ap (λ m. q ++ (sheet_commands set_format m)) b)
          | inr n ↦ rw n refl
        ]

    pub flush_buffers-idle :
        (cb : CommandBatcher S V F A)
        → cb.buffered_sets ≡ []
        → cb.buffered_formats ≡ []
        → (flush_buffers cb).cmd_queue ≡ cb.cmd_queue
    flush_buffers-idle cb a b =
        flush_buffers-queue cb
        ∙ ap
            (λ m.
              cb.cmd_queue
              ++ (sheet_commands set_scalar m ++ sheet_commands set_format cb.buffered_formats))
            a
        ∙ ap (λ m. cb.cmd_queue ++ (sheet_commands set_format m)) b
        ∙ append_nil cb.cmd_queue

    pub flush_buffers-empties :
        (cb : CommandBatcher S V F A)
        → ((flush_buffers cb).buffered_sets ≡ []) × ((flush_buffers cb).buffered_formats ≡ [])
    unfolding flush_buffers
    flush_buffers-empties cb =
        elim (Bool-cases (is_empty cb.buffered_sets && is_empty cb.buffered_formats)) [
          | inl y ↦ let e = both_empty cb.buffered_sets cb.buffered_formats y in rw y e
          | inr n ↦ rw n (refl, refl)
        ]

  module _ ⦃v : HasTest V⦄ ⦃f : HasTest F⦄ (sheet : S) (c : Cell) where
    pub flush_buffers-sets :
        (d : Option (V ⊎ A)) (cb : CommandBatcher S V F A)
        → IsValid cb
        → after (set_writes sheet c) d (flush_buffers cb).cmd_queue
          ≡ override (held_set sheet c cb) (after (set_writes sheet c) d cb.cmd_queue)
    flush_buffers-sets d cb h =
        let w = set_writes sheet c in
        let sets = sheet_commands set_scalar cb.buffered_sets in
        let formats = sheet_commands set_format cb.buffered_formats in
        let before = after w d cb.cmd_queue in
        ap (after w d) (flush_buffers-queue cb)
        ∙ after-append w d cb.cmd_queue (sets ++ formats)
        ∙ after-append w before sets formats
        ∙ sheet_commands-idle set_format w (λ t rects x. refl) (after w before sets)
            cb.buffered_formats
        ∙ after-sheet_commands set_scalar inl w sheet c (λ t rects x. refl) before cb.buffered_sets
            h.0.0 h.0.1
        ∙ show_or-override inl c before (lookup c (buffer_of sheet cb.buffered_sets))

    pub flush_buffers-formats :
        (d : Option F) (cb : CommandBatcher S V F A)
        → IsValid cb
        → after (format_writes sheet c) d (flush_buffers cb).cmd_queue
          ≡ override (held_format sheet c cb) (after (format_writes sheet c) d cb.cmd_queue)
    flush_buffers-formats d cb h =
        let w = format_writes sheet c in
        let sets = sheet_commands set_scalar cb.buffered_sets in
        let formats = sheet_commands set_format cb.buffered_formats in
        let before = after w d cb.cmd_queue in
        ap (after w d) (flush_buffers-queue cb)
        ∙ after-append w d cb.cmd_queue (sets ++ formats)
        ∙ after-append w before sets formats
        ∙ after-sheet_commands set_format (λ x. x) w sheet c (λ t rects x. refl)
            (after w before sets) cb.buffered_formats h.1.0 h.1.1
        ∙ show_or-override (λ x. x) c (after w before sets)
            (lookup c (buffer_of sheet cb.buffered_formats))
        ∙ ap (override (held_format sheet c cb))
            (sheet_commands-idle set_scalar w (λ t rects x. refl) before cb.buffered_sets)
