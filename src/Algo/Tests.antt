-- ===== src/Algo/Tests.antt =====
-- Concrete cells through pkg/algo/greedy_mesh.go.
use xll_gen.Prelude.{ℕ, ◌+◌, ◌≤◌, ◌≡◌, refl, false, List, [], ◌∷◌, if◌then◌else◌}
use xll_gen.Algo.GreedyMesh.{Cell, has, is_free, extent, grow, greedy_mesh}
use xll_gen.Algo.GreedyMesh.Growth.{grow_maximal}
use xll_gen.Algo.GreedyMesh.Partition.{covers, greedy_mesh-covers}

abbrev at : ℕ → ℕ → Cell
at row col = record { row = row; col = col }

-- An L: two rows of two cells, and one cell below, given out of order and with a repetition.
abbrev corner_shape : List Cell
corner_shape = at 1 0 ∷ at 0 1 ∷ at 0 0 ∷ at 1 1 ∷ at 2 0 ∷ at 0 1 ∷ []

greedy_mesh-covers_example :
    covers (at 1 1) (greedy_mesh corner_shape) ≡ (if has (at 1 1) corner_shape then 1 else 0)
greedy_mesh-covers_example = greedy_mesh-covers corner_shape (at 1 1)

grow_maximal_example :
    let r = grow (is_free corner_shape []) (extent corner_shape + 1) (at 0 0) in
    (is_free corner_shape [] 0 (r.col_last + 1) ≡ false)
    × ((col : ℕ) × (0 ≤ col)
        × (col ≤ r.col_last)
        × (is_free corner_shape [] (r.row_last + 1) col ≡ false))
grow_maximal_example = grow_maximal corner_shape [] (at 0 0) refl
