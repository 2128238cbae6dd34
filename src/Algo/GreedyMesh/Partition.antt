-- ===== src/Algo/GreedyMesh/Partition.antt =====
-- The rectangles of GreedyMesh (pkg/algo/greedy_mesh.go) partition the cells.
use xll_gen.Prelude.{
  ℕ, ◌+◌, ◌≤◌, ◌≡◌, refl, ap, ◌∙◌, inl, inr, Bool, true, false, not, ◌&&◌, ◌||◌, List, [], ◌∷◌,
  ◌++◌, nat_eq, arith, Bool-cases, if◌then◌else◌,
}
use xll_gen.Algo.GreedyMesh.{
  Cell, Rect, has, is_free, same_cell, extent, sort_cells, grow, rect_cells, mesh_from, greedy_mesh,
}
use xll_gen.Algo.GreedyMesh.Growth.{grow-free}
use xll_gen.Algo.GreedyMesh.Marks.{
  in_rect, has-append, has-sort_cells, has-rect_cells, has-same, same_cell_refl,
}

-- How many of the rectangles hold the cell.
abbrev pub covers : Cell → List Rect → ℕ
covers c [] = 0
covers c (r ∷ rects) = (if in_rect c r then 1 else 0) + covers c rects

-- One rectangle more, on the outcomes of the tests.
tally :
    (i g v : Bool)
    → (i ≡ true → (g && not v) ≡ true)
    → (if i then 1 else 0) + (if g && not (i || v) then 1 else 0) ≡ (if g && not v then 1 else 0)
tally true true true h = absurd (cc (h refl))
tally true true false h = omega arith
tally true false v h = absurd (cc (h refl))
tally false true true h = omega arith
tally false true false h = omega arith
tally false false v h = omega arith

or_true : (a b : Bool) → (a || b) ≡ true → (a ≡ false → b ≡ true)
or_true true b h f = cc
or_true false b h f = h

none_pending : (g v : Bool) → (g ≡ true → v ≡ true) → ◌≡◌ {A = ℕ} 0 (if g && not v then 1 else 0)
none_pending true true h = refl
none_pending true false h = absurd (cc (h refl))
none_pending false v h = refl

or_later : (a b : Bool) → b ≡ true → (a || b) ≡ true
or_later true b h = refl
or_later false b h = h

or_here : (a b : Bool) → a ≡ true → (a || b) ≡ true
or_here true b h = refl
or_here false b h = cc

both : (g v : Bool) → g ≡ true → v ≡ false → (g && not v) ≡ true
both true false g v = refl
both true true g v = cc
both false v g w = cc

marked_before : (a b v : Bool) → ((a || b) || v) ≡ true → (a ≡ true → v ≡ true) → (b || v) ≡ true
marked_before true true v h k = refl
marked_before true false v h k = k refl
marked_before false b v h k = h

marked_now :
    (a b v i : Bool) → ((a || b) || v) ≡ true → (a ≡ true → i ≡ true) → (b || (i || v)) ≡ true
marked_now a true v i h k = refl
marked_now true false v i h k = ap (λ q. q || v) (k refl)
marked_now false false true true h k = refl
marked_now false false true false h k = refl
marked_now false false false i h k = cc

h_or : (a : Bool) → a ≡ true → (a || false) ≡ true
h_or true h = refl
h_or false h = h

and_true : (a : Bool) → ◌≡◌ {A = ℕ} (if a && true then 1 else 0) (if a then 1 else 0)
and_true true = refl
and_true false = refl

corner :
    (c : Cell) (r : Rect) (y : Cell)
    → same_cell c y ≡ true
    → c.row ≤ r.row_last
    → c.col ≤ r.col_last
    → in_rect y (record r { row_first = c.row; col_first = c.col }) ≡ true
corner c r y q a b = ground arith

bounds :
    (x : Cell) (r : Rect)
    → in_rect x r ≡ true
    → (r.row_first ≤ x.row) × (x.row ≤ r.row_last) × (r.col_first ≤ x.col) × (x.col ≤ r.col_last)
bounds x r q = ground arith

module _ (grid : List Cell) where
  abbrev Inside : List Cell → Type 0
  Inside cells = (x : Cell) → has x cells ≡ true → has x grid ≡ true

  -- Every cell of the grid is still to come, or is marked.
  abbrev Pending : List Cell → List Cell → Type 0
  Pending cells visited = (x : Cell) → has x grid ≡ true → (has x cells || has x visited) ≡ true

  mesh_from-covers :
      (cells visited : List Cell)
      → Inside cells
      → Pending cells visited
      → (x : Cell)
      → covers x (mesh_from grid cells visited)
        ≡ (if has x grid && not (has x visited) then 1 else 0)
  unfolding mesh_from grow
  mesh_from-covers [] visited s p x = none_pending (has x grid) (has x visited) (p x)
  mesh_from-covers (c ∷ cells) visited s p x =
      let s' : Inside cells = λ y h. s y (or_later (same_cell c y) (has y cells) h) in
      elim (Bool-cases (has c visited)) [
        | inl old ↦ rw old (
            mesh_from-covers cells visited s'
              (λ y h.
                marked_before (same_cell c y) (has y cells) (has y visited) (p y h)
                  (λ q. has-same c y visited q ∙ old))
              x)
        | inr new ↦
            let r = grow (is_free grid visited) (extent grid + 1) c in
            let in_grid : has c grid ≡ true =
              s c (or_here (same_cell c c) (has c cells) (same_cell_refl c)) in
            let free : is_free grid visited c.row c.col ≡ true =
              both (has c grid) (has c visited) in_grid new in
            let (down, right, inside) = grow-free (is_free grid visited) (extent grid + 1) c free in
            let marks : (y : Cell)
                → has y (rect_cells r ++ visited) ≡ (in_rect y r || has y visited) =
              λ y.
                has-append y (rect_cells r) visited
                ∙ ap (λ b. b || has y visited) (has-rect_cells y r down right) in
            let pending : Pending cells (rect_cells r ++ visited) = λ y h.
              ap (λ b. has y cells || b) (marks y)
              ∙ marked_now (same_cell c y) (has y cells) (has y visited) (in_rect y r) (p y h)
                  (λ q. corner c r y q down right) in
            rw new (
              ap (λ k. (if in_rect x r then 1 else 0) + k)
                (mesh_from-covers cells (rect_cells r ++ visited) s' pending x
                  ∙ ap (λ b. if has x grid && not b then 1 else 0) (marks x))
              ∙ tally (in_rect x r) (has x grid) (has x visited)
                  (λ q. let (a, b, d, e) = bounds x r q in inside x.row x.col a b d e))
      ]

-- GreedyMesh partitions its cells: a cell of the input, repeated there or not, lies in exactly one of
-- the rectangles, and no other cell lies in any.
pub greedy_mesh-covers :
    (cells : List Cell) (x : Cell) → covers x (greedy_mesh cells) ≡ (if has x cells then 1 else 0)
unfolding greedy_mesh
greedy_mesh-covers cells x =
    mesh_from-covers (sort_cells cells) (sort_cells cells) [] (λ y h. h)
      (λ y h. h_or (has y (sort_cells cells)) h) x
    ∙ ap (λ b. if b && true then 1 else 0) (has-sort_cells x cells)
    ∙ and_true (has x cells)
