-- ===== src/Prelude/Lists.antt =====
-- Lists measured and indexed by native numbers.
use Prim.Native.Nat.{ℕ, zero, suc, ◌+◌, ◌-◌, ◌≤◌, ◌<◌, min}
use mathlib.Core.Path.{subst, ◌≡◌, refl, ap, sym, ◌∙◌}
use mathlib.Core.List.{map, List, [], ◌∷◌, ◌++◌}
use mathlib.Core.Option.{Option, none, some}
use native.Mathlib.Omega.{arith}

module _ {ℓ} {A : Type ℓ} where
  abbrev pub length : List A → ℕ
  length [] = 0
  length (x ∷ xs) = suc (length xs)

  abbrev pub get_elem? : List A → ℕ → Option A
  get_elem? [] i = none
  get_elem? (x ∷ xs) zero = some x
  get_elem? (x ∷ xs) (suc i) = get_elem? xs i

  abbrev pub take : ℕ → List A → List A
  take zero xs = []
  take (suc n) [] = []
  take (suc n) (x ∷ xs) = x ∷ take n xs

  abbrev pub drop : ℕ → List A → List A
  drop zero xs = xs
  drop (suc n) [] = []
  drop (suc n) (x ∷ xs) = drop n xs

  abbrev pub replicate : ℕ → A → List A
  replicate zero a = []
  replicate (suc n) a = a ∷ replicate n a

  -- `copy(dst[o:], bs)`: what does not fit is left out.
  abbrev pub copy_at : List A → ℕ → List A → List A
  copy_at [] o bs = []
  copy_at (x ∷ xs) (suc o) bs = x ∷ copy_at xs o bs
  copy_at (x ∷ xs) zero [] = x ∷ xs
  copy_at (x ∷ xs) zero (b ∷ bs) = b ∷ copy_at xs zero bs

  pub length-append : (xs ys : List A) → length (xs ++ ys) ≡ length xs + length ys
  length-append [] ys = omega arith
  length-append (x ∷ xs) ys = omega (arith, length-append xs ys)

  pub append_assoc : (xs ys zs : List A) → (xs ++ ys) ++ zs ≡ xs ++ (ys ++ zs)
  append_assoc [] ys zs = refl
  append_assoc (x ∷ xs) ys zs = ap (◌∷◌ x) (append_assoc xs ys zs)

  pub take-append-drop : (n : ℕ) (xs : List A) → take n xs ++ drop n xs ≡ xs
  take-append-drop zero xs = refl
  take-append-drop (suc n) [] = refl
  take-append-drop (suc n) (x ∷ xs) = ap (◌∷◌ x) (take-append-drop n xs)

  pub length-take : (n : ℕ) (xs : List A) → length (take n xs) ≡ min n (length xs)
  length-take zero xs = omega arith
  length-take (suc n) [] = omega arith
  length-take (suc n) (x ∷ xs) = omega (arith, length-take n xs)

  pub length-drop : (n : ℕ) (xs : List A) → length (drop n xs) ≡ length xs - n
  length-drop zero xs = omega arith
  length-drop (suc n) [] = omega arith
  length-drop (suc n) (x ∷ xs) = omega (arith, length-drop n xs)

  pub length-replicate : (n : ℕ) (a : A) → length (replicate n a) ≡ n
  length-replicate zero a = refl
  length-replicate (suc n) a = ap suc (length-replicate n a)

  pub length-copy_at : (xs : List A) (o : ℕ) (bs : List A) → length (copy_at xs o bs) ≡ length xs
  length-copy_at [] o bs = refl
  length-copy_at (x ∷ xs) (suc o) bs = ap suc (length-copy_at xs o bs)
  length-copy_at (x ∷ xs) zero [] = refl
  length-copy_at (x ∷ xs) zero (b ∷ bs) = ap suc (length-copy_at xs zero bs)

  pub get_elem?-drop : (n i : ℕ) (xs : List A) → get_elem? (drop n xs) i ≡ get_elem? xs (n + i)
  get_elem?-drop zero i xs = ap (get_elem? xs) (omega arith)
  get_elem?-drop (suc n) i [] = refl
  get_elem?-drop (suc n) i (x ∷ xs) = ground (arith, get_elem?-drop n i xs)

  pub get_elem?-take : (n i : ℕ) (xs : List A) → i < n → get_elem? (take n xs) i ≡ get_elem? xs i
  get_elem?-take zero i xs h = absurd (omega arith)
  get_elem?-take (suc n) i [] h = refl
  get_elem?-take (suc n) zero (x ∷ xs) h = refl
  get_elem?-take (suc n) (suc i) (x ∷ xs) h = get_elem?-take n i xs (omega arith)

  -- Lists with the same entries are the same.
  pub get_elem?_ext :
      (xs ys : List A)
      → length xs ≡ length ys
      → ((i : ℕ) → i < length xs → get_elem? xs i ≡ get_elem? ys i)
      → xs ≡ ys
  get_elem?_ext [] [] l h = refl
  get_elem?_ext [] (y ∷ ys) l h = absurd (omega arith)
  get_elem?_ext (x ∷ xs) [] l h = absurd (omega arith)
  get_elem?_ext (x ∷ xs) (y ∷ ys) l h =
      let e : some x ≡ some y = h 0 (omega arith) in
      let r : xs ≡ ys = get_elem?_ext xs ys (omega arith) (λ i b. h (suc i) (omega arith)) in cc

  pub get_elem?-copy_at_below :
      (xs : List A) (o : ℕ) (bs : List A) (i : ℕ)
      → i < o
      → get_elem? (copy_at xs o bs) i ≡ get_elem? xs i
  get_elem?-copy_at_below [] o bs i h = refl
  get_elem?-copy_at_below (x ∷ xs) zero bs i h = absurd (omega arith)
  get_elem?-copy_at_below (x ∷ xs) (suc o) bs zero h = refl
  get_elem?-copy_at_below (x ∷ xs) (suc o) bs (suc i) h =
      get_elem?-copy_at_below xs o bs i (omega arith)

  pub get_elem?-copy_at_above :
      (xs : List A) (o : ℕ) (bs : List A) (i : ℕ)
      → o + length bs ≤ i
      → get_elem? (copy_at xs o bs) i ≡ get_elem? xs i
  get_elem?-copy_at_above [] o bs i h = refl
  get_elem?-copy_at_above (x ∷ xs) zero [] i h = refl
  get_elem?-copy_at_above (x ∷ xs) zero (b ∷ bs) zero h = absurd (omega arith)
  get_elem?-copy_at_above (x ∷ xs) zero (b ∷ bs) (suc i) h =
      get_elem?-copy_at_above xs zero bs i (omega arith)
  get_elem?-copy_at_above (x ∷ xs) (suc o) bs zero h = absurd (omega arith)
  get_elem?-copy_at_above (x ∷ xs) (suc o) bs (suc i) h =
      get_elem?-copy_at_above xs o bs i (omega arith)

  pub get_elem?-copy_at_within :
      (xs : List A) (o : ℕ) (bs : List A) (i : ℕ)
      → i < length bs
      → o + i < length xs
      → get_elem? (copy_at xs o bs) (o + i) ≡ get_elem? bs i
  get_elem?-copy_at_within [] o bs i h k = absurd (omega arith)
  get_elem?-copy_at_within (x ∷ xs) zero [] i h k = absurd (omega arith)
  get_elem?-copy_at_within (x ∷ xs) zero (b ∷ bs) zero h k = ground arith
  get_elem?-copy_at_within (x ∷ xs) zero (b ∷ bs) (suc i) h k =
      ground (arith, get_elem?-copy_at_within xs zero bs i)
  get_elem?-copy_at_within (x ∷ xs) (suc o) bs i h k =
      ground (arith, get_elem?-copy_at_within xs o bs i)

  abbrev pub All {κ} : (A → Type κ) → List A → Type κ
  All P [] = Unit
  All P (x ∷ xs) = P x × All P xs

  pub All-append {κ} : (P : A → Type κ) (xs ys : List A) → All P xs → All P ys → All P (xs ++ ys)
  All-append P [] ys h k = k
  All-append P (x ∷ xs) ys h k = (h.0, All-append P xs ys h.1 k)

  pub All-weaken {κ} :
      (P Q : A → Type κ) (xs : List A) → ((x : A) → P x → Q x) → All P xs → All Q xs
  All-weaken P Q [] f h = tt
  All-weaken P Q (x ∷ xs) f h = (f x h.0, All-weaken P Q xs f h.1)

  pub get_elem?-All {κ} :
      (P : A → Type κ) (xs : List A) (i : ℕ) (x : A) → All P xs → get_elem? xs i ≡ some x → P x
  get_elem?-All P [] i x a h = absurd (cc)
  get_elem?-All P (y ∷ xs) zero x (p, a) h = let e : y ≡ x = cc in subst P e p
  get_elem?-All P (y ∷ xs) (suc i) x (p, a) h = get_elem?-All P xs i x a h

  pub map-All {κ} :
      (P Q : A → Type κ) (f : A → A) (xs : List A)
      → ((x : A) → P x → Q (f x))
      → All P xs
      → All Q (map f xs)
  map-All P Q f [] h a = tt
  map-All P Q f (x ∷ xs) h a = (h x a.0, map-All P Q f xs h a.1)

  pub drop_all : (n : ℕ) (xs : List A) → length xs ≤ n → drop n xs ≡ []
  drop_all zero [] h = refl
  drop_all zero (x ∷ xs) h = absurd (omega arith)
  drop_all (suc n) [] h = refl
  drop_all (suc n) (x ∷ xs) h = drop_all n xs (omega arith)

  pub drop-drop : (n m : ℕ) (xs : List A) → drop m (drop n xs) ≡ drop (n + m) xs
  drop-drop zero m xs = ap (λ k. drop k xs) (omega arith)
  drop-drop (suc n) m [] = drop_all m [] (omega arith) ∙ sym (drop_all (suc n + m) [] (omega arith))
  drop-drop (suc n) m (x ∷ xs) =
      let e : suc n + m ≡ suc (n + m) = omega arith in rw e (drop-drop n m xs)
