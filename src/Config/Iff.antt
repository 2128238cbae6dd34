-- ===== src/Config/Iff.antt =====
-- How the checks of internal/config/config.go read as propositions: a chain of checks passes exactly when
-- each does, and a test that refuses passes exactly when what it asks holds.
use xll_gen.Prelude.{
  ◌≡◌, ◌≢◌, ◌↔◌, refl, Bool, true, false, not, ◌&&◌, List, [], ◌∷◌, Option, none, some,
  if◌then◌else◌, ◌==◌, Text, text_eq, all, any, All, arith,
}
use xll_gen.Config.Names.{◌>>◌, fail_if}

-- A pair of propositions, nested to the right.
infixr 2 ◌&◌
abbrev pub ◌&◌ {ℓ κ} : Type ℓ → Type κ → Type (ℓ ⊔ κ)
P & Q = P × Q

abbrev pub Passes {ℓ} : {E : Type ℓ} → Option E → Type ℓ
Passes e = e ≡ none

pub ↔-trans : {A B C : Type 0} → A ↔ B → B ↔ C → A ↔ C
↔-trans (f, g) (h, k) = (λ a. h (f a), λ c. g (k c))

pub both : {P Q P' Q' : Type 0} → P ↔ P' → Q ↔ Q' → (P × Q) ↔ (P' × Q')
both (f, g) (h, k) = (λ (p, q). (f p, h q), λ (p, q). (g p, k q))

module _ {E : Type 0} where
  pub first-Passes :
      {P Q : Type 0} (a b : Option E) → Passes a ↔ P → Passes b ↔ Q → Passes (a >> b) ↔ (P × Q)
  unfolding ◌>>◌
  first-Passes none b (f, g) (h, k) = (λ e. (f refl, h e), λ v. k v.1)
  first-Passes (some x) b (f, g) (h, k) = (λ e. cc, λ v. absurd (cc (g v.0)))

  -- The second check may use that the first passed.
  pub then-Passes :
      {P Q : Type 0} (a b : Option E)
      → Passes a ↔ P
      → (P → Passes b ↔ Q)
      → Passes (a >> b) ↔ (P & Q)
  unfolding ◌>>◌
  then-Passes none b (f, g) h = (λ e. let p = f refl in (p, (h p).0 e), λ v. (h v.0).1 v.1)
  then-Passes (some x) b (f, g) h = (λ e. cc, λ v. absurd (cc (g v.0)))

  pub fail_if-Passes : (b : Bool) (e : E) → Passes (fail_if b e) ↔ (b ≡ false)
  unfolding fail_if
  fail_if-Passes true e = (λ h. cc, λ h. cc)
  fail_if-Passes false e = (λ h. refl, λ h. refl)

  -- The test says `not b`: `b` must hold.
  pub needs-Passes : (b : Bool) (e : E) → Passes (fail_if (not b) e) ↔ (b ≡ true)
  unfolding fail_if
  needs-Passes true e = (λ h. refl, λ h. refl)
  needs-Passes false e = (λ h. cc, λ h. cc)

  -- `a && b` is refused.
  pub excludes-Passes : (a b : Bool) (e : E) → Passes (fail_if (a && b) e) ↔ (a ≡ true → b ≡ false)
  unfolding fail_if
  excludes-Passes true true e = (λ h. cc, λ h. cc (h refl))
  excludes-Passes true false e = (λ h q. refl, λ h. refl)
  excludes-Passes false b e = (λ h q. cc, λ h. refl)

  -- `a && !b` is refused.
  pub implies-Passes :
      (a b : Bool) (e : E) → Passes (fail_if (a && not b) e) ↔ (a ≡ true → b ≡ true)
  unfolding fail_if
  implies-Passes true true e = (λ h q. refl, λ h. refl)
  implies-Passes true false e = (λ h. cc, λ h. cc (h refl))
  implies-Passes false b e = (λ h q. cc, λ h. refl)

  -- A check that only a text that is set undergoes.
  pub if_set-Passes :
      {P : Type 0} (s : Text) (e : Option E)
      → Passes e ↔ P
      → Passes (if s == [] then none else e) ↔ (s ≢ [] → P)
  if_set-Passes [] e (f, g) = (λ h q. absurd (q refl), λ h. refl)
  if_set-Passes (c ∷ s) e (f, g) = (λ h q. f h, λ h. g (h (λ p. cc)))

  pub branch-Passes :
      {P Q : Type 0} (b : Bool) (x y : Option E)
      → Passes x ↔ P
      → Passes y ↔ Q
      → Passes (if b then x else y) ↔ ((b ≡ true → P) & (b ≡ false → Q))
  branch-Passes true x y (f, g) (h, k) = (λ e. (λ q. f e, λ q. absurd (cc)), λ v. g (v.0 refl))
  branch-Passes false x y (f, g) (h, k) = (λ e. (λ q. absurd (cc), λ q. h e), λ v. k (v.1 refl))

  pub set_needs-Passes :
      (s : Text) (b : Bool) (e : E)
      → Passes (fail_if (not (s == []) && not b) e) ↔ (s ≢ [] → b ≡ true)
  unfolding fail_if
  set_needs-Passes [] b e = (λ h q. absurd (q refl), λ h. refl)
  set_needs-Passes (c ∷ s) b e = ↔-trans (needs-Passes b e) (λ h q. h, λ h. h (λ p. cc))

pub is_empty-false : (s : Text) → ((s == []) ≡ false) ↔ (s ≢ [])
is_empty-false [] = (λ h. cc, λ h. absurd (h refl))
is_empty-false (c ∷ s) = (λ h q. cc, λ h. refl)

module _ {ℓ} {A : Type ℓ} (test : A → Bool) where
  pub all-All : (xs : List A) → (all test xs ≡ true) ↔ All (λ x. test x ≡ true) xs
  all-All [] = (λ h. tt, λ h. refl)
  all-All (x ∷ xs) = (λ h. ground (arith, all-All xs), λ h. ground (arith, all-All xs, h.0, h.1))

  pub any-All : (xs : List A) → (any test xs ≡ false) ↔ All (λ x. test x ≡ false) xs
  any-All [] = (λ h. tt, λ h. refl)
  any-All (x ∷ xs) = (λ h. ground (arith, any-All xs), λ h. ground (arith, any-All xs, h.0, h.1))
