-- ===== src/Doctor/Order.antt =====
-- The comparison of cmd/doctor.go goes by the first component in which two versions differ.
use xll_gen.Prelude.{
  ℕ, zero, suc, ◌<◌, ◌≡◌, ◌⊎◌, refl, sym, inl, inr, List, [], ◌∷◌, ℤ, pos, negsuc, arith, ltb,
  ltb→lt, if-kept,
}
use xll_gen.Doctor.{compare_next, compare_versions}

-- A missing component counts as zero.
abbrev pub component : List ℕ → ℕ → ℕ
component [] i = 0
component (x ∷ a) zero = x
component (x ∷ a) (suc i) = component a i

abbrev pub AgreeUpTo : List ℕ → List ℕ → ℕ → Type 0
AgreeUpTo a b i = (j : ℕ) → j < i → component a j ≡ component b j

-- The first difference, and which side is smaller there.
abbrev pub FirstLess : List ℕ → List ℕ → Type 0
FirstLess a b = (i : ℕ) × AgreeUpTo a b i × (component a i < component b i)

-- The older version has the smaller number at the first difference; 0 means that there is none.
abbrev pub Compares : List ℕ → List ℕ → ℤ → Type 0
Compares a b r =
    ((r ≡ negsuc 0) × FirstLess a b)
    ⊎ ((r ≡ pos 1) × FirstLess b a)
    ⊎ ((r ≡ pos 0) × ((i : ℕ) → component a i ≡ component b i))

FirstLess-now : (a b : List ℕ) → component a 0 < component b 0 → FirstLess a b
FirstLess-now a b h = (0, (λ j l. absurd (omega arith)), h)

-- Two versions and what is left of them after the first components.
record HasRest (a a' : List ℕ) : Type 0 where
  tail : (i : ℕ) → component a (suc i) ≡ component a' i

FirstLess-later :
    (a b a' b' : List ℕ)
    → HasRest a a'
    → HasRest b b'
    → component a 0 ≡ component b 0
    → FirstLess a' b'
    → FirstLess a b
FirstLess-later a b a' b' p q e (i, agree, h) = (suc i, go, omega (arith, h, p.tail i, q.tail i))
  where
    go : AgreeUpTo a b (suc i)
    go zero l = e
    go (suc j) l = let s = agree j (omega arith) in omega (arith, s, p.tail j, q.tail j)

same_later :
    (a b a' b' : List ℕ)
    → HasRest a a'
    → HasRest b b'
    → component a 0 ≡ component b 0
    → ((i : ℕ) → component a' i ≡ component b' i)
    → (i : ℕ) → component a i ≡ component b i
same_later a b a' b' p q e h zero = e
same_later a b a' b' p q e h (suc i) = omega (arith, h i, p.tail i, q.tail i)

equal_heads :
    (a b a' b' : List ℕ) (r : ℤ)
    → HasRest a a'
    → HasRest b b'
    → component a 0 ≡ component b 0
    → Compares a' b' r
    → Compares a b r
equal_heads a b a' b' r p q e (inl (o, f)) = inl (o, FirstLess-later a b a' b' p q e f)
equal_heads a b a' b' r p q e (inr (inl (o, f))) =
    inr (inl (o, FirstLess-later b a b' a' q p (sym e) f))
equal_heads a b a' b' r p q e (inr (inr (o, h))) = inr (inr (o, same_later a b a' b' p q e h))

compare_next-Compares :
    (a b a' b' : List ℕ) (r : ℤ)
    → HasRest a a'
    → HasRest b b'
    → Compares a' b' r
    → Compares a b (compare_next (component a 0) (component b 0) r)
compare_next-Compares a b a' b' r p q c =
    if-kept (Compares a b) (ltb (component a 0) (component b 0)) _ _
      (λ y. inl (refl, FirstLess-now a b (ltb→lt _ _ y)))
      (λ n.
        if-kept (Compares a b) (ltb (component b 0) (component a 0)) _ _
          (λ y. inr (inl (refl, FirstLess-now b a (ltb→lt _ _ y))))
          (λ m. equal_heads a b a' b' r p q (ground (arith, n, m)) c))

nothing_left : HasRest [] []
nothing_left = record { tail = λ i. refl }

after_first : (x : ℕ) (a : List ℕ) → HasRest (x ∷ a) a
after_first x a = record { tail = λ i. refl }

-- compareVersions answers -1 and the first version has the smaller number at the first component in which
-- the two differ, or it answers 1 and the second version has the smaller number there, or it answers 0
-- and they differ in no component. A component that is missing counts as zero.
pub compare_versions-Compares : (a b : List ℕ) → Compares a b (compare_versions a b)
unfolding compare_versions
compare_versions-Compares [] [] = inr (inr (refl, λ i. refl))
compare_versions-Compares [] (y ∷ b) =
    compare_next-Compares [] (y ∷ b) [] b _ nothing_left (after_first y b)
      (compare_versions-Compares [] b)
compare_versions-Compares (x ∷ a) [] =
    compare_next-Compares (x ∷ a) [] a [] _ (after_first x a) nothing_left
      (compare_versions-Compares a [])
compare_versions-Compares (x ∷ a) (y ∷ b) =
    compare_next-Compares (x ∷ a) (y ∷ b) a b _ (after_first x a) (after_first y b)
      (compare_versions-Compares a b)
