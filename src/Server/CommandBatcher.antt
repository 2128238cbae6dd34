-- ===== src/Server/CommandBatcher.antt =====
-- pkg/server/command_batcher.go and command_flush.go: the commands that set values and formats of cells,
-- buffered by cell and flushed as rectangles. Every method holds the mutex while it touches the state, so
-- each is one step. A sheet's name, a scalar and a format are values of types with decidable equality
-- (so no scalar is a NaN, and 0 and -0 are one); `to_scalar` is ToScalar. Go's maps range in the order of the list.
pub mod Effect
pub mod Flushed
pub mod Buffers
pub mod View
pub mod Schedules
pub mod Sizes
pub mod Replay
mod Runs
use xll_gen.Prelude.{
  ◌↔◌, ℕ, zero, suc, ◌+◌, ◌-◌, ◌≡◌, Bool, true, false, not, ◌||◌, ◌&&◌, List, [], ◌∷◌, ◌++◌, length,
  ltb, leb, if◌then◌else◌, Option, none, some, take, drop, HasTest, ◌==◌, lookup, insert, map, ℤ,
  pos, negsuc, is_negative, ◌+ℤ◌, ◌*ℤ◌, refl, ap, arith, nat_eq,
}
use xll_gen.Algo.GreedyMesh.{Cell, Rect, same_cell, block_cells, greedy_mesh}

abbrev pub batching_threshold : ℕ
batching_threshold = 1024

abbrev pub rects_per_command : ℕ
rects_per_command = 32

-- The sheet and the areas of a protocol.Range.
pub record Range {σ} (S : Type σ) : Type σ where
  pub sheet : S
  pub refs : List Rect

-- `set_data` is the command that carries its value whole, a deep copy; the others have the optimised
-- form, CmdType and the fields that it uses.
pub data QueuedCommand {σ ν φ α} (S : Type σ) (V : Type ν) (F : Type φ) (A : Type α)
    : Type (σ ⊔ ν ⊔ φ ⊔ α) where
  set_scalar : S → List Rect → V → QueuedCommand S V F A
  set_format : S → List Rect → F → QueuedCommand S V F A
  set_data : Range S → A → QueuedCommand S V F A

pub record CommandBatcher {σ ν φ α} (S : Type σ) (V : Type ν) (F : Type φ) (A : Type α)
    : Type (σ ⊔ ν ⊔ φ ⊔ α) where
  pub buffered_sets : List (S × List (Cell × V))
  pub buffered_formats : List (S × List (Cell × F))
  pub cmd_queue : List (QueuedCommand S V F A)

-- `last - first + 1`, in int64.
abbrev span : ℕ → ℕ → ℤ
span first last =
    if leb first (last + 1) then pos (last + 1 - first) else negsuc (first - (last + 1) - 1)

-- calculateTotalCells: the areas may overlap, and each counts.
abbrev pub total_cells : List Rect → ℤ
total_cells [] = pos 0
total_cells (r ∷ refs) =
    (span r.row_first r.row_last *ℤ span r.col_first r.col_last) +ℤ total_cells refs

abbrev pub is_large : List Rect → Bool
is_large refs = let n = total_cells refs +ℤ negsuc batching_threshold in not (is_negative n)

-- The cells that the two loops over an area visit, in their order.
abbrev pub area_cells : Rect → List Cell
area_cells r =
    block_cells r.row_first (r.row_last + 1 - r.row_first) r.col_first
      (r.col_last + 1 - r.col_first)

pub same_cell_iff : (x y : Cell) → (same_cell x y ≡ true) ↔ (x ≡ y)
same_cell_iff x y = (λ h. ground arith, λ h. ground arith)

instance abbrev pub cell_eq : HasTest Cell
cell_eq = record { test = same_cell; decides = same_cell_iff }

module _ {ξ} {X : Type ξ} where
  abbrev pub buffer_cells : List Cell → X → List (Cell × X) → List (Cell × X)
  buffer_cells [] x m = m
  buffer_cells (c ∷ cells) x m = buffer_cells cells x (insert c x m)

  abbrev pub buffer_areas : List Rect → X → List (Cell × X) → List (Cell × X)
  buffer_areas [] x m = m
  buffer_areas (r ∷ refs) x m = buffer_areas refs x (buffer_cells (area_cells r) x m)

-- A nil map reads as an empty one.
abbrev pub or_empty {κ} : {B : Type κ} → Option (List B) → List B
or_empty none = []
or_empty (some m) = m

module _ {σ ξ} {S : Type σ} ⦃s : HasTest S⦄ {X : Type ξ} where
  abbrev pub buffer_of : S → List (S × List (Cell × X)) → List (Cell × X)
  buffer_of sheet sheets = or_empty (lookup sheet sheets)

  -- Every cell of the range takes the value in the buffer of its sheet.
  unfoldable pub buffer : Range S → X → List (S × List (Cell × X)) → List (S × List (Cell × X))
  buffer r x sheets = insert r.sheet (buffer_areas r.refs x (buffer_of r.sheet sheets)) sheets

module _ {ξ} {X : Type ξ} ⦃e : HasTest X⦄ where
  -- `byVal[val] = append(byVal[val], cell)`.
  abbrev pub add_cell : Cell → X → List (X × List Cell) → List (X × List Cell)
  add_cell c x [] = (x, c ∷ []) ∷ []
  add_cell c x ((y, cells) ∷ groups) =
      let rest = add_cell c x groups in
      if y == x then (y, cells ++ (c ∷ [])) ∷ groups else (y, cells) ∷ rest

  abbrev pub by_value : List (Cell × X) → List (X × List Cell) → List (X × List Cell)
  by_value [] groups = groups
  by_value ((c, x) ∷ m) groups = by_value m (add_cell c x groups)

-- The loop that cuts the rectangles into pieces of 32.
abbrev pub batches : ℕ → List Rect → List (List Rect)
batches zero rects = []
batches (suc fuel) [] = []
batches (suc fuel) (r ∷ rects) =
    take rects_per_command (r ∷ rects) ∷ batches fuel (drop rects_per_command (r ∷ rects))

module _ {σ ν φ α} {S : Type σ} {V : Type ν} {F : Type φ} {A : Type α} where
  module _ {ξ} {X : Type ξ} (make : S → List Rect → X → QueuedCommand S V F A) where
    abbrev pub commands_of : S → X → List (List Rect) → List (QueuedCommand S V F A)
    commands_of sheet x [] = []
    commands_of sheet x (b ∷ bs) = make sheet b x ∷ commands_of sheet x bs

    abbrev pub group_commands : S → List (X × List Cell) → List (QueuedCommand S V F A)
    group_commands sheet [] = []
    group_commands sheet ((x, cells) ∷ groups) =
        let rects = greedy_mesh cells in
        commands_of sheet x (batches (length rects) rects) ++ group_commands sheet groups

    abbrev pub sheet_commands :
        ⦃e : HasTest X⦄ → List (S × List (Cell × X)) → List (QueuedCommand S V F A)
    sheet_commands [] = []
    sheet_commands ((sheet, cells) ∷ sheets) =
        group_commands sheet (by_value cells []) ++ sheet_commands sheets

abbrev pub is_empty {κ} : {B : Type κ} → List B → Bool
is_empty [] = true
is_empty (b ∷ bs) = false

unfoldable pub new_command_batcher {σ ν φ α} :
    (S : Type σ) (V : Type ν) (F : Type φ) (A : Type α) → CommandBatcher S V F A
new_command_batcher S V F A = record { buffered_sets = []; buffered_formats = []; cmd_queue = [] }

module _ {σ ν φ α} {S : Type σ} {V : Type ν} {F : Type φ} {A : Type α} where
  unfoldable pub clear : CommandBatcher S V F A → CommandBatcher S V F A
  clear cb = record { buffered_sets = []; buffered_formats = []; cmd_queue = [] }

  module _ ⦃v : HasTest V⦄ ⦃f : HasTest F⦄ where
    unfoldable pub flush_buffers : CommandBatcher S V F A → CommandBatcher S V F A
    flush_buffers cb =
        if is_empty cb.buffered_sets && is_empty cb.buffered_formats then cb else record {
          buffered_sets = [];
          buffered_formats = [];
          cmd_queue =
              cb.cmd_queue
              ++ (sheet_commands set_scalar cb.buffered_sets
                  ++ sheet_commands set_format cb.buffered_formats);
        }

    -- Flush the buffers, then append the command.
    unfoldable pub enqueue : QueuedCommand S V F A → CommandBatcher S V F A → CommandBatcher S V F A
    enqueue c cb =
        let cb' = flush_buffers cb in record cb' { cmd_queue = cb'.cmd_queue ++ (c ∷ []) }

    -- FlushCommands, up to the encoding: the commands in order, or none at all.
    unfoldable pub flush_commands :
        CommandBatcher S V F A → Option (List (QueuedCommand S V F A)) × CommandBatcher S V F A
    flush_commands cb =
        let cb' = flush_buffers cb in
        if is_empty cb'.cmd_queue
        then (none, cb')
        else (some cb'.cmd_queue, record cb' { cmd_queue = [] })

    module _ ⦃s : HasTest S⦄ where
      -- ScheduleSet, by what ToScalar answers.
      unfoldable pub schedule_value :
          Range S → A → Option V → CommandBatcher S V F A → CommandBatcher S V F A
      schedule_value r a (some x) cb =
          if is_large r.refs
          then enqueue (set_scalar r.sheet r.refs x) cb
          else record cb { buffered_sets = buffer r x cb.buffered_sets }
      schedule_value r a none cb = enqueue (set_data r a) cb

      abbrev pub schedule_set :
          (A → Option V) → Range S → A → CommandBatcher S V F A → CommandBatcher S V F A
      schedule_set to_scalar r a cb = schedule_value r a (to_scalar a) cb

      unfoldable pub schedule_format : Range S → F → CommandBatcher S V F A → CommandBatcher S V F A
      schedule_format r x cb =
          if is_large r.refs
          then enqueue (set_format r.sheet r.refs x) cb
          else record cb { buffered_formats = buffer r x cb.buffered_formats }
