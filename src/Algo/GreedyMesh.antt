-- ===== src/Algo/GreedyMesh.antt =====
-- pkg/algo/greedy_mesh.go: a set of cells as rectangles. A coordinate is the index of a row or a column
-- of a sheet, a natural number far below 2 ^ 31, so that `+ 1` does not wrap. A map from cells to true
-- is the list of its keys. sort.Slice is the language's: any sort by the same order gives this list.
pub mod Growth
pub mod Marks
pub mod Partition
use xll_gen.Prelude.{
  ℕ, zero, suc, ◌+◌, ◌-◌, Bool, true, false, not, ◌&&◌, ◌||◌, List, [], ◌∷◌, ◌++◌, ltb, leb, ◌==◌,
  nat_eq, if◌then◌else◌, max, length,
}

pub record Cell : Type 0 where
  pub row : ℕ
  pub col : ℕ

pub record Rect : Type 0 where
  pub row_first : ℕ
  pub row_last : ℕ
  pub col_first : ℕ
  pub col_last : ℕ

abbrev pub same_cell : Cell → Cell → Bool
same_cell a b = (a.row == b.row) && (a.col == b.col)

abbrev pub has : Cell → List Cell → Bool
has c [] = false
has c (d ∷ cells) = same_cell d c || has c cells

-- The order of the sort: by row, then by column.
abbrev before : Cell → Cell → Bool
before a b = if a.row == b.row then ltb a.col b.col else ltb a.row b.row

pub insert_cell : Cell → List Cell → List Cell
insert_cell c [] = c ∷ []
insert_cell c (d ∷ cells) =
    let rest = insert_cell c cells in if before d c then d ∷ rest else c ∷ d ∷ cells

unfoldable pub sort_cells : List Cell → List Cell
unfolding insert_cell
sort_cells [] = []
sort_cells (c ∷ cells) = insert_cell c (sort_cells cells)

-- `grid[cell] && !visited[cell]`.
abbrev pub is_free : List Cell → List Cell → ℕ → ℕ → Bool
is_free grid visited row col =
    let c : Cell = record { row = row; col = col } in has c grid && not (has c visited)

-- No cell lies beyond it, in either direction.
abbrev pub extent : List Cell → ℕ
extent [] = 0
extent (c ∷ cells) = max (max c.row c.col) (extent cells)

module _ (free : ℕ → ℕ → Bool) where
  -- The last column that the row reaches without a gap.
  unfoldable pub widen : ℕ → ℕ → ℕ → ℕ
  widen zero row col_last = col_last
  widen (suc fuel) row col_last =
      let further = widen fuel row (col_last + 1) in
      if free row (col_last + 1) then further else col_last

  -- Whether `n` columns from `col` on are free in the row.
  unfoldable pub row_free : ℕ → ℕ → ℕ → Bool
  row_free row col zero = true
  row_free row col (suc n) =
      let rest = row_free row (col + 1) n in if free row col then rest else false

  -- The last row down to which these columns are free.
  unfoldable pub heighten : ℕ → ℕ → ℕ → ℕ → ℕ
  unfolding row_free
  heighten zero row_last col_first n = row_last
  heighten (suc fuel) row_last col_first n =
      let further = heighten fuel (row_last + 1) col_first n in
      if row_free (row_last + 1) col_first n then further else row_last

  unfoldable pub grow : ℕ → Cell → Rect
  unfolding widen heighten
  grow fuel c =
      let col_last = widen fuel c.row c.col in
      record {
        row_first = c.row;
        row_last = heighten fuel c.row c.col (col_last - c.col + 1);
        col_first = c.col;
        col_last = col_last;
      }

-- The cells that are marked: `n` columns of a row, and `m` such rows.
pub row_cells : ℕ → ℕ → ℕ → List Cell
row_cells row col zero = []
row_cells row col (suc n) = record { row = row; col = col } ∷ row_cells row (col + 1) n

pub block_cells : ℕ → ℕ → ℕ → ℕ → List Cell
unfolding row_cells
block_cells row zero col n = []
block_cells row (suc m) col n = row_cells row col n ++ block_cells (row + 1) m col n

unfoldable pub rect_cells : Rect → List Cell
unfolding block_cells
rect_cells r =
    block_cells r.row_first (r.row_last - r.row_first + 1) r.col_first
      (r.col_last - r.col_first + 1)

unfoldable pub mesh_from : List Cell → List Cell → List Cell → List Rect
unfolding grow rect_cells
mesh_from grid [] visited = []
mesh_from grid (c ∷ cells) visited =
    let r = grow (is_free grid visited) (extent grid + 1) c in
    let skipped = mesh_from grid cells visited in
    let rest = mesh_from grid cells (rect_cells r ++ visited) in
    if has c visited then skipped else r ∷ rest

unfoldable pub greedy_mesh : List Cell → List Rect
unfolding mesh_from sort_cells
greedy_mesh cells = mesh_from (sort_cells cells) (sort_cells cells) []
