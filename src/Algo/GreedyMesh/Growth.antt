-- ===== src/Algo/GreedyMesh/Growth.antt =====
-- How a rectangle grows (pkg/algo/greedy_mesh.go): over free cells only, and as far as they go.
use xll_gen.Prelude.{
  ℕ, zero, suc, ◌+◌, ◌-◌, ◌≤◌, ◌<◌, ◌≡◌, subst, inl, inr, Bool, true, false, not, ◌&&◌, ◌||◌, List,
  [], ◌∷◌, leb, nat_eq, arith, Bool-cases,
}
use xll_gen.Algo.GreedyMesh.{Cell, has, is_free, same_cell, extent, widen, row_free, heighten, grow}

module _ (free : ℕ → ℕ → Bool) where
  -- The columns from `a` to `b` of the row are free.
  abbrev pub FreeRow : ℕ → ℕ → ℕ → Type 0
  FreeRow row a b = (col : ℕ) → a ≤ col → col ≤ b → free row col ≡ true

  widen-FreeRow :
      (fuel row a b : ℕ)
      → a ≤ b
      → FreeRow row a b
      → (b ≤ widen free fuel row b) × FreeRow row a (widen free fuel row b)
  unfolding widen
  widen-FreeRow zero row a b l h = (omega arith, h)
  widen-FreeRow (suc fuel) row a b l h = elim (Bool-cases (free row (b + 1))) [
    | inr stop ↦ rw stop (omega arith, h)
    | inl go ↦
        let wider : FreeRow row a (b + 1) = λ col x y. elim (Bool-cases (leb col b)) [
          | inl within ↦ h col x (ground arith)
          | inr next ↦ subst (λ c. free row c ≡ true) (ground arith) go
        ] in
        let r = widen-FreeRow fuel row a (b + 1) (omega arith) wider in
        rw go (omega (arith, r.0), r.1)
  ]

  row_free-FreeRow :
      (row col n : ℕ)
      → row_free free row col n ≡ true
      → (c : ℕ) → col ≤ c
      → c < col + n
      → free row c ≡ true
  unfolding row_free
  row_free-FreeRow row col zero h c x y = absurd (omega arith)
  row_free-FreeRow row col (suc n) h c x y = elim (Bool-cases (free row col)) [
    | inr stop ↦ absurd (cc (rw stop at h))
    | inl go ↦ elim (Bool-cases (leb (col + 1) c)) [
      | inl later ↦ row_free-FreeRow row (col + 1) n (rw go at h) c (ground arith) (omega arith)
      | inr here ↦ subst (λ k. free row k ≡ true) (ground arith) go
    ]
  ]

  heighten-free :
      (fuel top low col n : ℕ)
      → top ≤ low
      → ((row c : ℕ) → top ≤ row → row ≤ low → col ≤ c → c < col + n → free row c ≡ true)
      → let bottom = heighten free fuel low col n in
        (low ≤ bottom)
        × ((row c : ℕ) → top ≤ row → row ≤ bottom → col ≤ c → c < col + n → free row c ≡ true)
  unfolding heighten
  heighten-free zero top low col n l h = (omega arith, h)
  heighten-free (suc fuel) top low col n l h = elim (Bool-cases (row_free free (low + 1) col n)) [
    | inr stop ↦ rw stop (omega arith, h)
    | inl go ↦
        let r = heighten-free fuel top (low + 1) col n (omega arith) (λ row c x y u v.
          elim (Bool-cases (leb row low)) [
            | inl within ↦ h row c x (ground arith) u v
            | inr next ↦
                subst (λ k. free k c ≡ true) (ground arith)
                  (row_free-FreeRow (low + 1) col n go c u v)
          ]) in
        rw go (omega (arith, r.0), r.1)
  ]

  -- All cells of the rectangle are free, and the first cell is its top left corner.
  pub grow-free :
      (fuel : ℕ) (c : Cell)
      → free c.row c.col ≡ true
      → let r = grow free fuel c in
        (c.row ≤ r.row_last)
        × (c.col ≤ r.col_last)
        × ((row col : ℕ)
            → c.row ≤ row
            → row ≤ r.row_last
            → c.col ≤ col
            → col ≤ r.col_last
            → free row col ≡ true)
  unfolding grow
  grow-free fuel c h =
      let w =
        widen-FreeRow fuel c.row c.col c.col (omega arith)
          (λ col x y. subst (λ k. free c.row k ≡ true) (ground arith) h) in
      let n = widen free fuel c.row c.col - c.col + 1 in
      let t = heighten-free fuel c.row c.row c.col n (omega arith) (λ row col x y u v.
        subst (λ k. free k col ≡ true) (ground arith) (w.1 col u (omega (arith, v, w.0)))) in
      (t.0, w.0, λ row col x y u v. t.1 row col x y u (omega (arith, v, w.0)))

  widen_stops :
      (fuel row b limit : ℕ)
      → ((col : ℕ) → free row col ≡ true → col ≤ limit)
      → limit < b + fuel
      → free row (widen free fuel row b + 1) ≡ false
  unfolding widen
  widen_stops zero row b limit h l = elim (Bool-cases (free row (b + 1))) [
    | inr stop ↦ stop
    | inl go ↦ absurd (omega (arith, h (b + 1) go))
  ]
  widen_stops (suc fuel) row b limit h l = elim (Bool-cases (free row (b + 1))) [
    | inr stop ↦ rw stop stop
    | inl go ↦ rw go (widen_stops fuel row (b + 1) limit h (omega arith))
  ]

  heighten_stops :
      (fuel low col n limit : ℕ)
      → ((row : ℕ) → free row col ≡ true → row ≤ limit)
      → 0 < n
      → limit < low + fuel
      → row_free free (heighten free fuel low col n + 1) col n ≡ false
  unfolding heighten row_free
  heighten_stops zero low col n limit h p l = elim (Bool-cases (row_free free (low + 1) col n)) [
    | inr stop ↦ stop
    | inl go ↦ absurd (
        omega (
          arith,
          h (low + 1) (row_free-FreeRow (low + 1) col n go col (omega arith) (omega arith)),
          l,
        ))
  ]
  heighten_stops (suc fuel) low col n limit h p l =
      elim (Bool-cases (row_free free (low + 1) col n)) [
        | inr stop ↦ rw stop stop
        | inl go ↦ rw go (heighten_stops fuel (low + 1) col n limit h p (omega arith))
      ]

  row_free_gap :
      (row col n : ℕ)
      → row_free free row col n ≡ false
      → (c : ℕ) × (col ≤ c) × (c < col + n) × (free row c ≡ false)
  unfolding row_free
  row_free_gap row col zero h = cc
  row_free_gap row col (suc n) h = elim (Bool-cases (free row col)) [
    | inr stop ↦ (col, omega arith, omega arith, stop)
    | inl go ↦
        let (c, a, b, e) = row_free_gap row (col + 1) n (rw go at h) in
        (c, omega (arith, a), omega (arith, b), e)
  ]

has-extent :
    (x : Cell) (cells : List Cell)
    → has x cells ≡ true
    → (x.row ≤ extent cells) × (x.col ≤ extent cells)
has-extent x [] h = cc
has-extent x (c ∷ cells) h = elim (Bool-cases (same_cell c x)) [
  | inl same ↦ ground arith
  | inr other ↦
      let r = has-extent x cells (subst (λ b. (b || has x cells) ≡ true) other h) in
      (omega (arith, r.0), omega (arith, r.1))
]

free-extent :
    (grid visited : List Cell) (row col : ℕ)
    → is_free grid visited row col ≡ true
    → (row ≤ extent grid) × (col ≤ extent grid)
free-extent grid visited row col h =
    let x : Cell = record { row = row; col = col } in
    elim (Bool-cases (has x grid)) [
      | inl y ↦ has-extent x grid y
      | inr n ↦ absurd (cc (subst (λ b. (b && not (has x visited)) ≡ true) n h))
    ]

-- The growth is greedy, and its loops end by themselves: from a free cell, a rectangle grows to the
-- right until the next cell of its first row is not free, and then down until some cell of the next row
-- below it is not free.
pub grow_maximal :
    (grid visited : List Cell) (c : Cell)
    → is_free grid visited c.row c.col ≡ true
    → let r = grow (is_free grid visited) (extent grid + 1) c in
      (is_free grid visited c.row (r.col_last + 1) ≡ false)
      × ((col : ℕ) × (c.col ≤ col)
          × (col ≤ r.col_last)
          × (is_free grid visited (r.row_last + 1) col ≡ false))
unfolding grow
grow_maximal grid visited c h =
    let free = is_free grid visited in
    let fuel = extent grid + 1 in
    let wide = (grow-free free fuel c h).1 in
    let n = widen free fuel c.row c.col - c.col + 1 in
    let stop =
      heighten_stops free fuel c.row c.col n (extent grid)
        (λ row y. (free-extent grid visited row c.col y).0) (omega arith) (omega arith) in
    let (col, a, b, e) = row_free_gap free (heighten free fuel c.row c.col n + 1) c.col n stop in
    (
      widen_stops free fuel c.row c.col (extent grid)
          (λ k y. (free-extent grid visited c.row k y).1) (omega arith),
      (col, a, omega (arith, b, wide), e),
    )
