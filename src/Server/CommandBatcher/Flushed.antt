-- ===== src/Server/CommandBatcher/Flushed.antt =====
-- The commands that a flush makes of a buffer write what the buffer holds, cell by cell
-- (pkg/server/command_flush.go).
use xll_gen.Prelude.{
  ℕ, zero, suc, ◌≤◌, ◌≡◌, refl, ap, sym, ◌∙◌, inl, inr, Bool, true, false, ◌||◌, ◌&&◌, List, [],
  ◌∷◌, length, if◌then◌else◌, Option, none, some, take, drop, take-append-drop, length-drop,
  HasTest, ◌==◌, All, lookup, Distinct, Bool-cases, ==→≡, arith, subst,
}
use xll_gen.Algo.GreedyMesh.{Cell, Rect, has, greedy_mesh}
use xll_gen.Server.CommandBatcher.{
  QueuedCommand, rects_per_command, by_value, batches, commands_of, group_commands, sheet_commands,
  cell_eq, buffer_of, or_empty,
}
use xll_gen.Server.CommandBatcher.Effect.{
  hit, hit-append, hit-greedy_mesh, after, after-append, if_twice, override, override_if, pick,
  show_or, pick-by_value,
}

if_no {ξ} : {X : Type ξ} (b : Bool) (x d : X) → d ≡ (if b && false then x else d)
if_no true x d = refl
if_no false x d = refl

if_both {ξ} : {X : Type ξ} (b : Bool) (d : X) → d ≡ (if b then d else d)
if_both true d = refl
if_both false d = refl

if_enter {ξ} :
    {X : Type ξ} (b h : Bool) (x d : X) (f : X → X)
    → (if b then f (if b && h then x else d) else (if b && h then x else d))
      ≡ (if b then f (if h then x else d) else d)
if_enter true h x d f = refl
if_enter false h x d f = refl

module _ {σ ν φ α ξ μ} {S : Type σ} {V : Type ν} {F : Type φ} {A : Type α} {X : Type ξ} {Y : Type μ}
    ⦃s : HasTest S⦄ ⦃e : HasTest X⦄ (make : S → List Rect → X → QueuedCommand S V F A)
    (shown : X → Y) (writes : QueuedCommand S V F A → Option Y) (sheet : S) (c : Cell)
    (written : (t : S) (rects : List Rect) (x : X)
      → writes (make t rects x)
        ≡ (if (t == sheet) && hit c rects then some (shown x) else none)) where
  hit-split :
      (rects : List Rect)
      → (hit c (take rects_per_command rects) || hit c (drop rects_per_command rects)) ≡ hit c rects
  hit-split rects =
      sym (hit-append c (take rects_per_command rects) (drop rects_per_command rects))
      ∙ ap (hit c) (take-append-drop rects_per_command rects)

  after-batches :
      (d : Option Y) (t : S) (x : X) (fuel : ℕ) (rects : List Rect)
      → length rects ≤ fuel
      → after writes d (commands_of make t x (batches fuel rects))
        ≡ (if (t == sheet) && hit c rects then some (shown x) else d)
  after-batches d t x zero [] h = if_no (t == sheet) (some (shown x)) d
  after-batches d t x zero (r ∷ rects) h = absurd (omega arith)
  after-batches d t x (suc fuel) [] h = if_no (t == sheet) (some (shown x)) d
  after-batches d t x (suc fuel) (r ∷ rects) h =
      let all = r ∷ rects in
      let first = take rects_per_command all in
      let later = drop rects_per_command all in
      let l = length-drop rects_per_command all in
      let small : length later ≤ fuel = omega (arith, l, h) in
      let here : override (writes (make t first x)) d
          ≡ (if (t == sheet) && hit c first then some (shown x) else d) =
        ap (λ o. override o d) (written t first x)
        ∙ override_if ((t == sheet) && hit c first) (shown x) d in
      let there = after-batches (override (writes (make t first x)) d) t x fuel later small in
      there
      ∙ ap (λ o. if (t == sheet) && hit c later then some (shown x) else o) here
      ∙ if_twice (t == sheet) (hit c first) (hit c later) (some (shown x)) d
      ∙ ap (λ z. if (t == sheet) && z then some (shown x) else d) (hit-split all)

  after-group_commands :
      (d : Option Y) (t : S) (groups : List (X × List Cell))
      → after writes d (group_commands make t groups)
        ≡ (if t == sheet then pick shown c d groups else d)
  after-group_commands d t [] = if_both (t == sheet) d
  after-group_commands d t ((x, cells) ∷ groups) =
      let rects = greedy_mesh cells in
      let mine = commands_of make t x (batches (length rects) rects) in
      let d' = after writes d mine in
      let now = after-batches d t x (length rects) rects (omega arith) in
      let k = hit-greedy_mesh c cells in
      after-append writes d mine (group_commands make t groups)
      ∙ after-group_commands d' t groups
      ∙ ap (λ o. if t == sheet then pick shown c o groups else o)
          (now ∙ ap (λ z. if (t == sheet) && z then some (shown x) else d) k)
      ∙ if_enter (t == sheet) (has c cells) (some (shown x)) d (λ o. pick shown c o groups)

  -- What the cell holds in the buffer of its sheet, or else `d`.
  abbrev pub buffered_or : Option Y → List (S × List (Cell × X)) → Option Y
  buffered_or d sheets = show_or shown c d (lookup c (buffer_of sheet sheets))

  pub after-sheet_commands :
      (d : Option Y) (sheets : List (S × List (Cell × X)))
      → Distinct sheets
      → All (λ entry. Distinct (entry.1)) sheets
      → after writes d (sheet_commands make sheets) ≡ buffered_or d sheets
  after-sheet_commands d [] v w = refl
  after-sheet_commands d ((t, cells) ∷ sheets) v w =
      let groups = by_value cells [] in
      let mine = group_commands make t groups in
      let d' = after writes d mine in
      let rest = after-sheet_commands d' sheets v.1 w.1 in
      let now = after-group_commands d t groups in
      let all = after-append writes d mine (sheet_commands make sheets) ∙ rest in
      elim (Bool-cases (t == sheet)) [
        | inl y ↦
            let same : t ≡ sheet = ==→≡ t sheet y in
            let gone : lookup sheet sheets ≡ none = subst (λ z. lookup z sheets ≡ none) same v.0 in
            let held : d' ≡ pick shown c d groups =
              now ∙ ap (λ z. if z then pick shown c d groups else d) y in
            let skip : buffered_or d' sheets ≡ d' =
              ap (λ o. show_or shown c d' (lookup c (or_empty o))) gone in
            all
            ∙ skip
            ∙ held
            ∙ pick-by_value shown c d cells [] w.0 tt
            ∙ sym (
                ap
                  (λ b.
                    show_or shown c d
                      (lookup c (or_empty (if b then some cells else lookup sheet sheets))))
                  y)
        | inr n ↦
            let left : d' ≡ d = now ∙ ap (λ z. if z then pick shown c d groups else d) n in
            all
            ∙ ap (λ o. buffered_or o sheets) left
            ∙ sym (
                ap
                  (λ b.
                    show_or shown c d
                      (lookup c (or_empty (if b then some cells else lookup sheet sheets))))
                  n)
      ]
