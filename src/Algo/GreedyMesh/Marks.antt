-- ===== src/Algo/GreedyMesh/Marks.antt =====
-- Which cells the sort keeps and a rectangle marks (pkg/algo/greedy_mesh.go).
use xll_gen.Prelude.{
  ℕ, zero, suc, ◌+◌, ◌-◌, ◌≤◌, ◌≡◌, refl, ap, ◌∙◌, inl, inr, Bool, true, false, ◌&&◌, ◌||◌, List,
  [], ◌∷◌, ◌++◌, ltb, leb, ◌==◌, nat_eq, arith, Bool-cases,
}
use xll_gen.Algo.GreedyMesh.{
  Cell, Rect, has, same_cell, before, insert_cell, sort_cells, row_cells, block_cells, rect_cells,
}

abbrev pub in_rect : Cell → Rect → Bool
in_rect c r =
    leb r.row_first c.row && leb c.row r.row_last && leb r.col_first c.col && leb c.col r.col_last

or_assoc_of : (a b c d : Bool) → b ≡ (c || d) → (a || b) ≡ ((a || c) || d)
or_assoc_of true b c d e = refl
or_assoc_of false b c d e = e

pub has-append : (x : Cell) (xs ys : List Cell) → has x (xs ++ ys) ≡ (has x xs || has x ys)
has-append x [] ys = refl
has-append x (a ∷ xs) ys =
    or_assoc_of (same_cell a x) (has x (xs ++ ys)) (has x xs) (has x ys) (has-append x xs ys)

swap : (a b c : Bool) → (a || (b || c)) ≡ (b || (a || c))
swap true true c = refl
swap true false c = refl
swap false true c = refl
swap false false c = refl

has-insert_cell : (x c : Cell) (cells : List Cell) → has x (insert_cell c cells) ≡ has x (c ∷ cells)
unfolding insert_cell
has-insert_cell x c [] = refl
has-insert_cell x c (d ∷ cells) = elim (Bool-cases (before d c)) [
  | inl y ↦
      rw (y, insert_cell)
        (ap (λ b. same_cell d x || b) (has-insert_cell x c cells)
          ∙ swap (same_cell d x) (same_cell c x) (has x cells))
  | inr n ↦ rw (n, insert_cell) refl
]

pub has-sort_cells : (x : Cell) (cells : List Cell) → has x (sort_cells cells) ≡ has x cells
unfolding sort_cells
has-sort_cells x [] = refl
has-sort_cells x (c ∷ cells) =
    has-insert_cell x c (sort_cells cells) ∙ ap (λ b. same_cell c x || b) (has-sort_cells x cells)

has-row_cells :
    (x : Cell) (row col n : ℕ)
    → has x (row_cells row col n) ≡ ((row == x.row) && leb col x.col && ltb x.col (col + n))
unfolding row_cells
has-row_cells x row col zero = ground arith
has-row_cells x row col (suc n) = ground (arith, has-row_cells x row (col + 1) n)

pub has-block_cells :
    (x : Cell) (row m col n : ℕ)
    → has x (block_cells row m col n)
      ≡ (leb row x.row && ltb x.row (row + m) && leb col x.col && ltb x.col (col + n))
unfolding block_cells
has-block_cells x row zero col n = ground arith
has-block_cells x row (suc m) col n =
    has-append x (row_cells row col n) (block_cells (row + 1) m col n)
    ∙ ground (arith, has-row_cells x row col n, has-block_cells x (row + 1) m col n)

pub has-rect_cells :
    (x : Cell) (r : Rect)
    → r.row_first ≤ r.row_last
    → r.col_first ≤ r.col_last
    → has x (rect_cells r) ≡ in_rect x r
unfolding rect_cells
has-rect_cells x r a b =
    let m = r.row_last - r.row_first + 1 in
    let n = r.col_last - r.col_first + 1 in
    let rows : ltb x.row (r.row_first + m) ≡ leb x.row r.row_last = ground arith in
    let cols : ltb x.col (r.col_first + n) ≡ leb x.col r.col_last = ground arith in
    has-block_cells x r.row_first m r.col_first n
    ∙ ap (λ q. leb r.row_first x.row && q && leb r.col_first x.col && ltb x.col (r.col_first + n))
        rows
    ∙ ap (λ q. leb r.row_first x.row && leb x.row r.row_last && leb r.col_first x.col && q) cols

pub same_cell_refl : (c : Cell) → same_cell c c ≡ true
same_cell_refl c = ground arith

pub has-same : (c x : Cell) (cells : List Cell) → same_cell c x ≡ true → has x cells ≡ has c cells
has-same c x [] h = refl
has-same c x (d ∷ cells) h = ground (arith, has-same c x cells)
