-- ===== src/Prelude/Texts.antt =====
-- Go strings as the list of their code points, and what the sources use of the packages strings, path and
-- unicode. YAML text is valid UTF-8, so ranging over a string gives exactly these code points.
use Prim.Native.Nat.{ℕ, ◌+◌, ◌-◌}
use Prim.Native.Char.{code}
use Prim.Native.String.{String}
use mathlib.Core.Path.{◌≡◌, refl}
use mathlib.Core.Logic.{◌↔◌}
use mathlib.Core.Bool.{Bool, true, false, ◌&&◌, ◌||◌}
use mathlib.Core.List.{List, [], ◌∷◌}
use native.Mathlib.Omega.{arith}
use xll_gen.Prelude.Tests.{HasTest, ◌==◌, nat_eq, ltb, leb, if◌then◌else◌}

abbrev pub Text : Type 0
Text = List ℕ

abbrev pub codes : String → Text
codes String.[] = []
codes (String.◌∷◌ c s) = code c ∷ codes s

module _ {ℓ} {A : Type ℓ} ⦃e : HasTest A⦄ where
  abbrev pub list_beq : List A → List A → Bool
  list_beq [] [] = true
  list_beq [] (y ∷ ys) = false
  list_beq (x ∷ xs) [] = false
  list_beq (x ∷ xs) (y ∷ ys) = (x == y) && list_beq xs ys

  pub list_beq_iff : (xs ys : List A) → (list_beq xs ys ≡ true) ↔ (xs ≡ ys)
  list_beq_iff [] [] = (λ h. refl, λ h. refl)
  list_beq_iff [] (y ∷ ys) = (λ h. cc, λ h. cc)
  list_beq_iff (x ∷ xs) [] = (λ h. cc, λ h. cc)
  list_beq_iff (x ∷ xs) (y ∷ ys) = (
    λ h. ground (arith, e.decides x y, list_beq_iff xs ys),
    λ h. ground (arith, e.decides x y, list_beq_iff xs ys),
  )

  abbrev pub mem : A → List A → Bool
  mem x [] = false
  mem x (y ∷ ys) = (y == x) || mem x ys

  -- No element occurs twice.
  abbrev pub AllDistinct : List A → Type 0
  AllDistinct [] = Unit
  AllDistinct (x ∷ xs) = (mem x xs ≡ false) × AllDistinct xs

instance abbrev pub text_eq : HasTest Text
text_eq = record { test = list_beq; decides = list_beq_iff }

module _ {ℓ} {A : Type ℓ} (test : A → Bool) where
  -- What a loop that returns at the first element failing the test asks.
  abbrev pub all : List A → Bool
  all [] = true
  all (x ∷ xs) = test x && all xs

  abbrev pub any : List A → Bool
  any [] = false
  any (x ∷ xs) = test x || any xs

abbrev pub is_lower : ℕ → Bool
is_lower c = leb b'a' c && leb c b'z'

abbrev pub is_upper : ℕ → Bool
is_upper c = leb b'A' c && leb c b'Z'

abbrev pub is_digit : ℕ → Bool
is_digit c = leb b'0' c && leb c b'9'

-- The tables of package unicode beyond ASCII: one entry of each for a code point from 128 on.
pub record Unicode : Type 0 where
  pub lower : ℕ → ℕ
  pub upper : ℕ → ℕ
  pub space : ℕ → Bool
  -- Two runes, at least one of them beyond ASCII, that differ and fold alike.
  pub fold : ℕ → ℕ → Bool

module _ (u : Unicode) where
  unfoldable pub rune_to_lower : ℕ → ℕ
  rune_to_lower c = if ltb c 128 then (if is_upper c then c + 32 else c) else u.lower c

  unfoldable pub rune_to_upper : ℕ → ℕ
  rune_to_upper c = if ltb c 128 then (if is_lower c then c - 32 else c) else u.upper c

  unfoldable pub rune_is_space : ℕ → Bool
  rune_is_space c = if ltb c 128 then (leb 9 c && leb c 13) || (c == 32) else u.space c

  abbrev pub to_lower : Text → Text
  to_lower [] = []
  to_lower (c ∷ s) = rune_to_lower c ∷ to_lower s

  abbrev pub to_upper : Text → Text
  to_upper [] = []
  to_upper (c ∷ s) = rune_to_upper c ∷ to_upper s

  unfoldable pub rune_folds : ℕ → ℕ → Bool
  unfolding rune_to_lower
  rune_folds c d =
      (c == d)
      || (if ltb c 128 && ltb d 128 then rune_to_lower c == rune_to_lower d else u.fold c d)

  abbrev pub equal_fold : Text → Text → Bool
  equal_fold [] [] = true
  equal_fold [] (d ∷ t) = false
  equal_fold (c ∷ s) [] = false
  equal_fold (c ∷ s) (d ∷ t) = rune_folds c d && equal_fold s t

  abbrev trim_left : Text → Text
  trim_left [] = []
  trim_left (c ∷ s) = let rest = trim_left s in if rune_is_space c then rest else c ∷ s

  abbrev trim_right : Text → Text
  trim_right [] = []
  trim_right (c ∷ s) =
      let rest = trim_right s in if rune_is_space c && (rest == []) then [] else c ∷ rest

  -- strings.TrimSpace.
  abbrev pub trim_space : Text → Text
  trim_space s = trim_right (trim_left s)
