-- ===== src/Server/CommandBatcher/Effect.antt =====
-- What queued commands do to a cell, and that the commands made of a buffer write exactly what it holds
-- (pkg/server/command_flush.go).
use xll_gen.Prelude.{
  ◌≡◌, refl, ap, ◌∙◌, inl, inr, Bool, true, false, ◌||◌, ◌&&◌, List, [], ◌∷◌, ◌++◌, ltb,
  if◌then◌else◌, Option, none, some, HasTest, ◌==◌, All, lookup, Distinct, Bool-cases, ==→≡, arith,
  subst,
}
use xll_gen.Algo.GreedyMesh.{Cell, Rect, has, same_cell, greedy_mesh}
use xll_gen.Algo.GreedyMesh.Marks.{in_rect, has-append}
use xll_gen.Algo.GreedyMesh.Partition.{covers, greedy_mesh-covers}
use xll_gen.Server.CommandBatcher.{add_cell, by_value, cell_eq, same_cell_iff}

abbrev pub hit : Cell → List Rect → Bool
hit c [] = false
hit c (r ∷ rects) = in_rect c r || hit c rects

hit-covers : (c : Cell) (rects : List Rect) → hit c rects ≡ ltb 0 (covers c rects)
hit-covers c [] = refl
hit-covers c (r ∷ rects) = ground (arith, hit-covers c rects)

pub hit-append : (c : Cell) (xs ys : List Rect) → hit c (xs ++ ys) ≡ (hit c xs || hit c ys)
hit-append c [] ys = refl
hit-append c (r ∷ xs) ys = ground (arith, hit-append c xs ys)

pub hit-greedy_mesh : (c : Cell) (cells : List Cell) → hit c (greedy_mesh cells) ≡ has c cells
hit-greedy_mesh c cells =
    ground (arith, hit-covers c (greedy_mesh cells), greedy_mesh-covers cells c)

-- A later value replaces an earlier one.
abbrev pub override {ξ} : {X : Type ξ} → Option X → Option X → Option X
override none d = d
override (some x) d = some x

module _ {κ ξ} {C : Type κ} {X : Type ξ} (writes : C → Option X) where
  -- What a cell shows once the commands are carried out in order.
  abbrev pub after : Option X → List C → Option X
  after d [] = d
  after d (k ∷ q) = after (override (writes k) d) q

  pub after-append : (d : Option X) (q r : List C) → after d (q ++ r) ≡ after (after d q) r
  after-append d [] r = refl
  after-append d (k ∷ q) r = after-append (override (writes k) d) q r

pub if_twice {ξ} :
    {X : Type ξ} (b p q : Bool) (x d : X)
    → (if b && q then x else (if b && p then x else d)) ≡ (if b && (p || q) then x else d)
if_twice true true true x d = refl
if_twice true true false x d = refl
if_twice true false q x d = refl
if_twice false p q x d = refl

pub override_if {ξ} :
    {X : Type ξ} (b : Bool) (x : X) (d : Option X)
    → override (if b then some x else none) d ≡ (if b then some x else d)
override_if true x d = refl
override_if false x d = refl

module _ {ξ μ} {X : Type ξ} {Y : Type μ} (shown : X → Y) (c : Cell) where
  -- What the cell shows once each group is written in turn.
  abbrev pub pick : Option Y → List (X × List Cell) → Option Y
  pick d [] = d
  pick d ((x, cells) ∷ groups) = pick (if has c cells then some (shown x) else d) groups

  abbrev pub Absent : List (X × List Cell) → Type 0
  Absent [] = Unit
  Absent ((x, cells) ∷ groups) = (has c cells ≡ false) × Absent groups

  pick-Absent : (d : Option Y) (groups : List (X × List Cell)) → Absent groups → pick d groups ≡ d
  pick-Absent d [] h = refl
  pick-Absent d ((x, cells) ∷ groups) h = rw (h.0) (pick-Absent d groups h.1)

  module _ ⦃e : HasTest X⦄ where
    -- Adding another cell changes nothing for this one.
    pick-add_cell-other :
        (d : Option Y) (b : Cell) (x : X) (groups : List (X × List Cell))
        → same_cell b c ≡ false
        → pick d (add_cell b x groups) ≡ pick d groups
    pick-add_cell-other d b x [] h = rw h refl
    pick-add_cell-other d b x ((y, cells) ∷ groups) h = elim (Bool-cases (y == x)) [
      | inl t ↦
          let a = has-append c cells (b ∷ []) in
          let k : has c (cells ++ (b ∷ [])) ≡ has c cells = ground (arith, a, h) in
          rw t (ap (λ z. pick (if z then some (shown y) else d) groups) k)
      | inr f ↦ rw f (pick-add_cell-other (if has c cells then some (shown y) else d) b x groups h)
    ]

    Absent-add_cell :
        (b : Cell) (x : X) (groups : List (X × List Cell))
        → same_cell b c ≡ false
        → Absent groups
        → Absent (add_cell b x groups)
    Absent-add_cell b x [] h a = (rw h refl, tt)
    Absent-add_cell b x ((y, cells) ∷ groups) h a = elim (Bool-cases (y == x)) [
      | inl t ↦ let e = has-append c cells (b ∷ []) in rw t (ground (arith, e, h, a.0), a.1)
      | inr f ↦ rw f (a.0, Absent-add_cell b x groups h a.1)
    ]

    pick-add_cell-here :
        (d : Option Y) (b : Cell) (x : X) (groups : List (X × List Cell))
        → same_cell b c ≡ true
        → Absent groups
        → pick d (add_cell b x groups) ≡ some (shown x)
    pick-add_cell-here d b x [] h a = rw h refl
    pick-add_cell-here d b x ((y, cells) ∷ groups) h a = elim (Bool-cases (y == x)) [
      | inl t ↦
          let e = has-append c cells (b ∷ []) in
          let k : has c (cells ++ (b ∷ [])) ≡ true = ground (arith, e, h) in
          let same : y ≡ x = ==→≡ y x t in
          rw t (
            ap (λ z. pick (if z then some (shown y) else d) groups) k
            ∙ pick-Absent (some (shown y)) groups a.1
            ∙ ap (λ z. some (shown z)) same)
      | inr f ↦
          rw f (pick-add_cell-here (if has c cells then some (shown y) else d) b x groups h a.1)
    ]

    abbrev pub show_or : Option Y → Option X → Option Y
    show_or d none = d
    show_or d (some x) = some (shown x)

    pick-by_value-none :
        (d : Option Y) (m : List (Cell × X)) (groups : List (X × List Cell))
        → lookup c m ≡ none
        → pick d (by_value m groups) ≡ pick d groups
    pick-by_value-none d [] groups h = refl
    pick-by_value-none d ((b, x) ∷ m) groups h = elim (Bool-cases (same_cell b c)) [
      | inl t ↦ absurd (ground (arith, t, h))
      | inr f ↦
          let g : lookup c m ≡ none = ground (arith, f, h) in
          pick-by_value-none d m (add_cell b x groups) g ∙ pick-add_cell-other d b x groups f
    ]

    pub pick-by_value :
        (d : Option Y) (m : List (Cell × X)) (groups : List (X × List Cell))
        → Distinct m
        → Absent groups
        → pick d (by_value m groups) ≡ show_or d (lookup c m)
    pick-by_value d [] groups v a = pick-Absent d groups a
    pick-by_value d ((b, x) ∷ m) groups v a = elim (Bool-cases (same_cell b c)) [
      | inl t ↦
          let same : b ≡ c = (same_cell_iff b c).0 t in
          let g : lookup c m ≡ none = subst (λ z. lookup z m ≡ none) same v.0 in
          rw t
            (pick-by_value-none d m (add_cell b x groups) g ∙ pick-add_cell-here d b x groups t a)
      | inr f ↦ rw f (pick-by_value d m (add_cell b x groups) v.1 (Absent-add_cell b x groups f a))
    ]

-- Commands that all leave a cell alone.
pub after-leaves {κ ξ} :
    {C : Type κ} {X : Type ξ} (writes : C → Option X) (d : Option X) (q : List C)
    → All (λ k. writes k ≡ none) q
    → after writes d q ≡ d
after-leaves writes d [] h = refl
after-leaves writes d (k ∷ q) h = rw (h.0) (after-leaves writes d q h.1)
