-- ===== src/Ribbon/Literal.antt =====
-- The text in the C++ literal that ToCppRawLiteral of internal/ribbon/ribbon.go writes: it is ASCII, and it
-- holds the closing delimiter only where the XML does.
use xll_gen.Prelude.{
  ℕ, zero, suc, ◌/◌, ◌%◌, ◌<◌, ◌≡◌, refl, sym, ap, ◌∙◌, Bool, true, false, [], ◌∷◌, ◌++◌, All, inl,
  inr, Bool-cases, if◌then◌else◌, if-kept, ◌&&◌, ◌||◌, ◌==◌, nat_eq, text_eq, ltb, Text, arith,
}
use xll_gen.Generator.Literals.{hex_digit}
use xll_gen.Ribbon.{hex_from, character_references, starts_with, contains}

abbrev pub is_ascii : ℕ → Bool
is_ascii c = ltb c 128

hex_digit-ascii : (d : ℕ) → d < 16 → is_ascii (hex_digit d) ≡ true
unfolding hex_digit
hex_digit-ascii d h =
    if-kept (λ (c : ℕ). is_ascii c ≡ true) (ltb d 10) _ _ (λ y. ground (arith, y))
      (λ n. ground arith)

hex_from-All :
    (fuel n : ℕ) (acc : Text)
    → n < fuel
    → All (λ c. is_ascii c ≡ true) acc
    → All (λ c. is_ascii c ≡ true) (hex_from fuel n acc)
hex_from-All zero n acc l h = h
hex_from-All (suc fuel) n acc l h =
    if-kept (All (λ c. is_ascii c ≡ true)) (ltb n 16) _
      (hex_from fuel (n / 16) (hex_digit (n % 16) ∷ acc))
      (λ y. (hex_digit-ascii n (ground (arith, y)), h))
      (λ k.
        hex_from-All fuel (n / 16) (hex_digit (n % 16) ∷ acc) (ground (arith, k, l))
          (hex_digit-ascii (n % 16) (omega arith), h))

pub character_references-All : (s : Text) → All (λ c. is_ascii c ≡ true) (character_references s)
character_references-All [] = tt
character_references-All (r ∷ s) =
    let h = character_references-All s in
    if-kept (All (λ c. is_ascii c ≡ true)) (ltb 127 r) _ _
      (λ y. (
        refl,
        (
          refl,
          (refl, hex_from-All (suc r) r (b';' ∷ character_references s) (omega arith) (refl, h)),
        ),
      ))
      (λ n. (ground (arith, n), h))

-- A character of a delimiter that no reference begins with.
abbrev pub IsDelimiter : ℕ → Type 0
IsDelimiter c = ((c == b'&') ≡ false) × (is_ascii c ≡ true)

starts_with-character_references :
    (p s : Text) → All IsDelimiter p → starts_with p (character_references s) ≡ starts_with p s
starts_with-character_references [] s h = refl
starts_with-character_references (c ∷ p) [] h = refl
starts_with-character_references (c ∷ p) (r ∷ s) ((d, a), h) =
    if-kept (λ t. starts_with (c ∷ p) t ≡ starts_with (c ∷ p) (r ∷ s)) (ltb 127 r) _ _
      (λ y.
        let f : (c == r) ≡ false = ground (arith, y, a) in
        ap
          (λ b.
            b && starts_with p (b'#' ∷ b'x' ∷ hex_from (suc r) r (b';' ∷ character_references s)))
          d
        ∙ sym (ap (λ b. b && starts_with p s) f))
      (λ n. ap (λ b. (c == r) && b) (starts_with-character_references p s h))

module _ (c : ℕ) (p : Text) where
  skip : (d : ℕ) (s : Text) → (c == d) ≡ false → contains (c ∷ p) (d ∷ s) ≡ contains (c ∷ p) s
  skip d s h = ap (λ b. (b && starts_with p s) || contains (c ∷ p) s) h

  hex_from-contains :
      (fuel n : ℕ) (acc : Text)
      → n < fuel
      → ((d : ℕ) → d < 16 → (c == hex_digit d) ≡ false)
      → contains (c ∷ p) (hex_from fuel n acc) ≡ contains (c ∷ p) acc
  hex_from-contains zero n acc l h = absurd (omega arith)
  hex_from-contains (suc fuel) n acc l h =
      if-kept (λ s. contains (c ∷ p) s ≡ contains (c ∷ p) acc) (ltb n 16) _
        (hex_from fuel (n / 16) (hex_digit (n % 16) ∷ acc))
        (λ y. skip (hex_digit n) acc (h n (ground (arith, y))))
        (λ k.
          hex_from-contains fuel (n / 16) (hex_digit (n % 16) ∷ acc) (ground (arith, k, l)) h
          ∙ skip (hex_digit (n % 16)) acc (h (n % 16) (omega arith)))

hex_digit-open : (d : ℕ) → d < 16 → (b')' == hex_digit d) ≡ false
unfolding hex_digit
hex_digit-open d h =
    if-kept (λ (c : ℕ). (b')' == c) ≡ false) (ltb d 10) _ _ (λ y. ground arith) (λ n. ground arith)

pub character_references-contains :
    (p s : Text)
    → All IsDelimiter p
    → contains (b')' ∷ p) (character_references s) ≡ contains (b')' ∷ p) s
character_references-contains p [] h = refl
character_references-contains p (r ∷ s) h =
    let ih = character_references-contains p s h in
    if-kept (λ t. contains (b')' ∷ p) t ≡ contains (b')' ∷ p) (r ∷ s)) (ltb 127 r) _ _
      (λ y.
        hex_from-contains b')' p (suc r) r (b';' ∷ character_references s) (omega arith)
          hex_digit-open
        ∙ ih
        ∙ sym (skip b')' p r s (ground (arith, y))))
      (λ n.
        ap (λ b. ((b')' == r) && b) || contains (b')' ∷ p) (character_references s))
          (starts_with-character_references p s h)
        ∙ ap (λ b. ((b')' == r) && starts_with p s) || b) ih)

hex_from-append :
    (fuel n : ℕ) (acc t : Text) → hex_from fuel n (acc ++ t) ≡ hex_from fuel n acc ++ t
hex_from-append zero n acc t = refl
hex_from-append (suc fuel) n acc t =
    let ih = hex_from-append fuel (n / 16) (hex_digit (n % 16) ∷ acc) t in
    branch_append (ltb n 16) (hex_digit n ∷ acc) _ _ t ih
  where
    branch_append :
        (b : Bool) (x y z t : Text)
        → z ≡ y ++ t
        → (if b then x ++ t else z) ≡ (if b then x else y) ++ t
    branch_append true x y z t e = refl
    branch_append false x y z t e = e

pub character_references-append :
    (s t : Text) → character_references (s ++ t) ≡ character_references s ++ character_references t
character_references-append [] t = refl
character_references-append (r ∷ s) t =
    let ih = character_references-append s t in
    elim (Bool-cases (ltb 127 r)) [
      | inl y ↦ rw y (
          ap (λ v. b'&' ∷ b'#' ∷ b'x' ∷ hex_from (suc r) r (b';' ∷ v)) ih
          ∙ ap (λ v. b'&' ∷ b'#' ∷ b'x' ∷ v)
              (hex_from-append (suc r) r (b';' ∷ character_references s) (character_references t)))
      | inr n ↦ rw n (ap (◌∷◌ r) ih)
    ]
