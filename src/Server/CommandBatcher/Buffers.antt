-- ===== src/Server/CommandBatcher/Buffers.antt =====
-- What a cell holds in the buffers after a range is scheduled, and that keys stay distinct
-- (pkg/server/command_batcher.go).
use xll_gen.Prelude.{
  ◌+◌, ◌-◌, ◌≡◌, refl, ap, ◌∙◌, inl, inr, Bool, true, false, ◌||◌, ◌&&◌, List, [], ◌∷◌,
  if◌then◌else◌, some, HasTest, ◌==◌, All, lookup, insert, erase, lookup-insert, insert-Distinct,
  Distinct, Bool-cases, ==→≡, arith,
}
use xll_gen.Algo.GreedyMesh.{Cell, Rect, has, same_cell}
use xll_gen.Algo.GreedyMesh.Marks.{in_rect, has-block_cells}
use xll_gen.Server.CommandBatcher.{
  Range, cell_eq, buffer_of, or_empty, buffer, buffer_areas, buffer_cells, area_cells,
}
use xll_gen.Server.CommandBatcher.Effect.{hit}

has-area_cells : (c : Cell) (r : Rect) → has c (area_cells r) ≡ in_rect c r
has-area_cells c r =
    let e =
      has-block_cells c r.row_first (r.row_last + 1 - r.row_first) r.col_first
        (r.col_last + 1 - r.col_first) in
    ground (arith, e)

if_later {ξ} :
    {X : Type ξ} (p q : Bool) (x d : X)
    → (if q then x else (if p then x else d)) ≡ (if p || q then x else d)
if_later true true x d = refl
if_later true false x d = refl
if_later false q x d = refl

module _ {ξ} {X : Type ξ} where
  lookup-buffer_cells :
      (c : Cell) (cells : List Cell) (x : X) (m : List (Cell × X))
      → lookup c (buffer_cells cells x m) ≡ (if has c cells then some x else lookup c m)
  lookup-buffer_cells c [] x m = refl
  lookup-buffer_cells c (b ∷ cells) x m =
      lookup-buffer_cells c cells x (insert b x m)
      ∙ ap (λ o. if has c cells then some x else o) (lookup-insert b c x m)
      ∙ if_later (same_cell b c) (has c cells) (some x) (lookup c m)

  lookup-buffer_areas :
      (c : Cell) (refs : List Rect) (x : X) (m : List (Cell × X))
      → lookup c (buffer_areas refs x m) ≡ (if hit c refs then some x else lookup c m)
  lookup-buffer_areas c [] x m = refl
  lookup-buffer_areas c (r ∷ refs) x m =
      lookup-buffer_areas c refs x (buffer_cells (area_cells r) x m)
      ∙ ap (λ o. if hit c refs then some x else o)
          (lookup-buffer_cells c (area_cells r) x m
            ∙ ap (λ b. if b then some x else lookup c m) (has-area_cells c r))
      ∙ if_later (in_rect c r) (hit c refs) (some x) (lookup c m)

  buffer_cells-Distinct :
      (cells : List Cell) (x : X) (m : List (Cell × X))
      → Distinct m
      → Distinct (buffer_cells cells x m)
  buffer_cells-Distinct [] x m d = d
  buffer_cells-Distinct (b ∷ cells) x m d =
      buffer_cells-Distinct cells x (insert b x m) (insert-Distinct b x m d)

  buffer_areas-Distinct :
      (refs : List Rect) (x : X) (m : List (Cell × X))
      → Distinct m
      → Distinct (buffer_areas refs x m)
  buffer_areas-Distinct [] x m d = d
  buffer_areas-Distinct (r ∷ refs) x m d =
      buffer_areas-Distinct refs x (buffer_cells (area_cells r) x m)
        (buffer_cells-Distinct (area_cells r) x m d)

module _ {σ ξ} {S : Type σ} ⦃s : HasTest S⦄ {X : Type ξ} where
  -- The keys of the sheets, and of the cells of each sheet, are distinct.
  abbrev pub AreDistinct : List (S × List (Cell × X)) → Type ξ
  AreDistinct sheets = Distinct sheets × All (λ entry. Distinct (entry.1)) sheets

  pub lookup-buffer :
      (r : Range S) (x : X) (sheets : List (S × List (Cell × X))) (sheet : S) (c : Cell)
      → lookup c (buffer_of sheet (buffer r x sheets))
        ≡ (if (r.sheet == sheet) && hit c r.refs then some x else lookup c (buffer_of sheet sheets))
  unfolding buffer
  lookup-buffer r x sheets sheet c =
      let m = buffer_areas r.refs x (buffer_of r.sheet sheets) in
      let e = lookup-insert r.sheet sheet m sheets in
      ap (λ o. lookup c (or_empty o)) e ∙ elim (Bool-cases (r.sheet == sheet)) [
        | inl y ↦
            let same : r.sheet ≡ sheet = ==→≡ r.sheet sheet y in
            rw y (
              lookup-buffer_areas c r.refs x (buffer_of r.sheet sheets)
              ∙ ap (λ t. if hit c r.refs then some x else lookup c (buffer_of t sheets)) same)
        | inr n ↦ rw n refl
      ]

  erase-All :
      (P : S × List (Cell × X) → Type ξ) (sheet : S) (sheets : List (S × List (Cell × X)))
      → All P sheets
      → All P (erase sheet sheets)
  erase-All P sheet [] h = tt
  erase-All P sheet ((t, m) ∷ sheets) h = elim (Bool-cases (t == sheet)) [
    | inl y ↦ rw y (erase-All P sheet sheets h.1)
    | inr n ↦ rw n (h.0, erase-All P sheet sheets h.1)
  ]

  buffer_of-Distinct :
      (sheet : S) (sheets : List (S × List (Cell × X)))
      → All (λ entry. Distinct (entry.1)) sheets
      → Distinct (buffer_of sheet sheets)
  buffer_of-Distinct sheet [] h = tt
  buffer_of-Distinct sheet ((t, m) ∷ sheets) h = elim (Bool-cases (t == sheet)) [
    | inl y ↦ rw y h.0
    | inr n ↦ rw n (buffer_of-Distinct sheet sheets h.1)
  ]

  pub buffer-AreDistinct :
      (r : Range S) (x : X) (sheets : List (S × List (Cell × X)))
      → AreDistinct sheets
      → AreDistinct (buffer r x sheets)
  unfolding buffer
  buffer-AreDistinct r x sheets h =
      let m = buffer_areas r.refs x (buffer_of r.sheet sheets) in
      (
        insert-Distinct r.sheet m sheets h.0,
        (
          buffer_areas-Distinct r.refs x (buffer_of r.sheet sheets)
              (buffer_of-Distinct r.sheet sheets h.1),
          erase-All (λ entry. Distinct (entry.1)) r.sheet sheets h.1,
        ),
      )
