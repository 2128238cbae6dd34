-- ===== src/Prelude/Maps.antt =====
-- Go maps as association lists. `insert` drops the old entry, so keys stay distinct.
use Prim.Native.Nat.{◌≤◌, ◌<◌}
use mathlib.Core.Path.{◌≡◌, refl, ap, ◌∙◌, subst}
use mathlib.Core.Logic.{inl, inr}
use mathlib.Core.Bool.{Bool}
use mathlib.Core.List.{List, [], ◌∷◌}
use mathlib.Core.Option.{Option, none, some}
use native.Mathlib.Omega.{arith}
use xll_gen.Prelude.Tests.{HasTest, ◌==◌, if◌then◌else◌, Bool-cases, ==_refl, ==→≡}
use xll_gen.Prelude.Lists.{length}

module _ {ℓ κ} {K : Type ℓ} {V : Type κ} ⦃e : HasTest K⦄ where
  abbrev pub lookup : K → List (K × V) → Option V
  lookup k [] = none
  lookup k ((j, v) ∷ m) = if j == k then some v else lookup k m

  abbrev pub erase : K → List (K × V) → List (K × V)
  erase k [] = []
  erase k ((j, v) ∷ m) = let rest = erase k m in if j == k then rest else (j, v) ∷ rest

  abbrev pub insert : K → V → List (K × V) → List (K × V)
  insert k v m = (k, v) ∷ erase k m

  -- What a loop over the map that deletes the entries failing `p` leaves.
  abbrev pub keep_if : (K → V → Bool) → List (K × V) → List (K × V)
  keep_if p [] = []
  keep_if p ((j, v) ∷ m) = let rest = keep_if p m in if p j v then (j, v) ∷ rest else rest

  abbrev pub Distinct : List (K × V) → Type κ
  Distinct [] = Unit
  Distinct ((j, v) ∷ m) = (lookup j m ≡ none) × Distinct m

  pub lookup-erase :
      (k j : K) (m : List (K × V)) → lookup j (erase k m) ≡ (if k == j then none else lookup j m)
  lookup-erase k j [] = ground arith
  lookup-erase k j ((i, v) ∷ m) =
      ground (arith, lookup-erase k j m, e.decides i k, e.decides i j, e.decides k j)

  pub lookup-insert :
      (k j : K) (v : V) (m : List (K × V))
      → lookup j (insert k v m) ≡ (if k == j then some v else lookup j m)
  lookup-insert k j v m = ground (arith, lookup-erase k j m)

  pub length-erase_le : (k : K) (m : List (K × V)) → length (erase k m) ≤ length m
  length-erase_le k [] = omega arith
  length-erase_le k ((j, v) ∷ m) = ground (arith, length-erase_le k m)

  pub length-erase_lt :
      (k : K) (v : V) (m : List (K × V)) → lookup k m ≡ some v → length (erase k m) < length m
  length-erase_lt k v [] h = cc
  length-erase_lt k v ((j, w) ∷ m) h = ground (arith, length-erase_le k m, length-erase_lt k v m)

  pub length-keep_if : (p : K → V → Bool) (m : List (K × V)) → length (keep_if p m) ≤ length m
  length-keep_if p [] = omega arith
  length-keep_if p ((j, v) ∷ m) = ground (arith, length-keep_if p m)

  pub erase-Distinct : (k : K) (m : List (K × V)) → Distinct m → Distinct (erase k m)
  erase-Distinct k [] d = tt
  erase-Distinct k ((j, v) ∷ m) d = ground (arith, erase-Distinct k m d.1, lookup-erase k j m)

  pub insert-Distinct : (k : K) (v : V) (m : List (K × V)) → Distinct m → Distinct (insert k v m)
  insert-Distinct k v m d = (
    lookup-erase k k m ∙ ap (λ b. if b then none else lookup k m) (==_refl k),
    erase-Distinct k m d,
  )

  pub lookup-keep_if-none :
      (p : K → V → Bool) (k : K) (m : List (K × V))
      → lookup k m ≡ none
      → lookup k (keep_if p m) ≡ none
  lookup-keep_if-none p k [] h = refl
  lookup-keep_if-none p k ((j, v) ∷ m) h = ground (arith, lookup-keep_if-none p k m)

  pub keep_if-Distinct : (p : K → V → Bool) (m : List (K × V)) → Distinct m → Distinct (keep_if p m)
  keep_if-Distinct p [] d = tt
  keep_if-Distinct p ((j, v) ∷ m) d =
      ground (arith, keep_if-Distinct p m d.1, lookup-keep_if-none p j m d.0)

  pub lookup-keep_if :
      (p : K → V → Bool) (k : K) (v : V) (m : List (K × V))
      → Distinct m
      → lookup k m ≡ some v
      → lookup k (keep_if p m) ≡ (if p k v then some v else none)
  lookup-keep_if p k v [] d h = cc
  lookup-keep_if p k v ((j, w) ∷ m) d h =
      ground (arith, e.decides j k, lookup-keep_if p k v m d.1, lookup-keep_if-none p j m d.0)

  -- Every entry of the map satisfies `P`.
  abbrev pub Entries {ν} : (K → V → Type ν) → List (K × V) → Type (ℓ ⊔ κ ⊔ ν)
  Entries P m = (k : K) (v : V) → lookup k m ≡ some v → P k v

  pub lookup-erase-some :
      (k j : K) (v : V) (m : List (K × V)) → lookup j (erase k m) ≡ some v → lookup j m ≡ some v
  lookup-erase-some k j v m h = ground (arith, lookup-erase k j m)

  pub lookup-keep_if-some :
      (p : K → V → Bool) (k : K) (v : V) (m : List (K × V))
      → lookup k (keep_if p m) ≡ some v
      → Distinct m
      → lookup k m ≡ some v
  lookup-keep_if-some p k v [] h d = h
  lookup-keep_if-some p k v ((j, w) ∷ m) h d =
      ground (arith, e.decides j k, lookup-keep_if-some p k v m, lookup-keep_if-none p j m d.0)

  module _ {ν} (P : K → V → Type ν) where
    pub Entries-erase : (k : K) (m : List (K × V)) → Entries P m → Entries P (erase k m)
    Entries-erase k m h j v l = h j v (lookup-erase-some k j v m l)

    pub Entries-keep_if :
        (p : K → V → Bool) (m : List (K × V)) → Distinct m → Entries P m → Entries P (keep_if p m)
    Entries-keep_if p m d h j v l = h j v (lookup-keep_if-some p j v m l d)

    pub Entries-insert :
        (k : K) (v : V) (m : List (K × V)) → P k v → Entries P m → Entries P (insert k v m)
    Entries-insert k v m p h j w l = elim (Bool-cases (k == j)) [
      | inl t ↦
          let same : k ≡ j = ==→≡ k j t in
          let e : v ≡ w = ground arith in subst (λ x. P x w) same (subst (P k) e p)
      | inr f ↦ let g : lookup j (erase k m) ≡ some w = ground arith in Entries-erase k m h j w g
    ]
