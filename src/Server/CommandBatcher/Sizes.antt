-- ===== src/Server/CommandBatcher/Sizes.antt =====
-- How many rectangles a command of a flush has (pkg/server/command_flush.go).
use xll_gen.Prelude.{
  ℕ, zero, suc, ◌≤◌, ◌<◌, ◌≡◌, List, [], ◌∷◌, ◌++◌, length, length-take, HasTest, All, drop, arith,
}
use xll_gen.Algo.GreedyMesh.{Cell, Rect, greedy_mesh}
use xll_gen.Server.CommandBatcher.{
  QueuedCommand, set_scalar, set_format, set_data, CommandBatcher, rects_per_command, batches,
  commands_of, by_value, group_commands, sheet_commands, flush_buffers,
}
use xll_gen.Server.CommandBatcher.View.{flush_buffers-queue}

All-append {ℓ κ} :
    {B : Type ℓ} (P : B → Type κ) (xs ys : List B) → All P xs → All P ys → All P (xs ++ ys)
All-append P [] ys a b = b
All-append P (x ∷ xs) ys a b = (a.0, All-append P xs ys a.1 b)

abbrev pub IsBatch : List Rect → Type 0
IsBatch rects = (0 < length rects) × (length rects ≤ rects_per_command)

batches-IsBatch : (fuel : ℕ) (rects : List Rect) → All IsBatch (batches fuel rects)
batches-IsBatch zero rects = tt
batches-IsBatch (suc fuel) [] = tt
batches-IsBatch (suc fuel) (r ∷ rects) =
    let l = length-take rects_per_command (r ∷ rects) in
    (
      (omega (arith, l), omega (arith, l)),
      batches-IsBatch fuel (drop rects_per_command (r ∷ rects)),
    )

module _ {σ ν φ α} {S : Type σ} {V : Type ν} {F : Type φ} {A : Type α} where
  -- A command of the optimised form, with 1 to 32 rectangles.
  abbrev pub IsSized : QueuedCommand S V F A → Type 0
  IsSized (set_scalar sheet rects x) = IsBatch rects
  IsSized (set_format sheet rects x) = IsBatch rects
  IsSized (set_data r a) = ⊥

  module _ {ξ} {X : Type ξ} (make : S → List Rect → X → QueuedCommand S V F A)
      (sized : (t : S) (rects : List Rect) (x : X) → IsBatch rects → IsSized (make t rects x)) where
    commands_of-IsSized :
        (t : S) (x : X) (bs : List (List Rect))
        → All IsBatch bs
        → All IsSized (commands_of make t x bs)
    commands_of-IsSized t x [] h = tt
    commands_of-IsSized t x (b ∷ bs) h = (sized t b x h.0, commands_of-IsSized t x bs h.1)

    group_commands-IsSized :
        (t : S) (groups : List (X × List Cell)) → All IsSized (group_commands make t groups)
    group_commands-IsSized t [] = tt
    group_commands-IsSized t ((x, cells) ∷ groups) =
        let rects = greedy_mesh cells in
        let bs = batches (length rects) rects in
        All-append IsSized (commands_of make t x bs) (group_commands make t groups)
          (commands_of-IsSized t x bs (batches-IsBatch (length rects) rects))
          (group_commands-IsSized t groups)

    sheet_commands-IsSized :
        ⦃e : HasTest X⦄ (sheets : List (S × List (Cell × X)))
        → All IsSized (sheet_commands make sheets)
    sheet_commands-IsSized [] = tt
    sheet_commands-IsSized ((t, cells) ∷ sheets) =
        let groups = by_value cells [] in
        All-append IsSized (group_commands make t groups) (sheet_commands make sheets)
          (group_commands-IsSized t groups) (sheet_commands-IsSized sheets)

-- A flush keeps the queue and appends commands of the optimised form, each with 1 to 32 rectangles.
pub flush_buffers-IsSized {σ ν φ α} :
    {S : Type σ} {V : Type ν} {F : Type φ} {A : Type α} ⦃s : HasTest S⦄ ⦃v : HasTest V⦄
    ⦃f : HasTest F⦄ (cb : CommandBatcher S V F A)
    → (made : List (QueuedCommand S V F A)) × ((flush_buffers cb).cmd_queue ≡ cb.cmd_queue ++ made)
      × All IsSized made
flush_buffers-IsSized cb =
    let sets = sheet_commands set_scalar cb.buffered_sets in
    let formats = sheet_commands set_format cb.buffered_formats in
    (
      sets ++ formats,
      flush_buffers-queue cb,
      All-append IsSized sets formats
          (sheet_commands-IsSized set_scalar (λ t rects x h. h) cb.buffered_sets)
          (sheet_commands-IsSized set_format (λ t rects x h. h) cb.buffered_formats),
    )
