-- ===== src/Ribbon/Images/Steps.antt =====
-- One round of the loop in Images of internal/ribbon/ribbon.go keeps the three variables in step.
use xll_gen.Prelude.{
  ℕ, zero, suc, ◌≤◌, ◌≡◌, ◌≢◌, ◌⊎◌, inl, inr, refl, ap, ◌∙◌, List, [], ◌∷◌, ◌++◌, Option, none,
  some, length, get_elem?, ==_refl, ≢→==, nat_eq, text_eq, lookup, insert, lookup-insert, Entries,
  Text, Unicode,
}
use xll_gen.Config.{RibbonButton}
use xll_gen.Config.Names.{image_file, classify_ribbon_image}
use xll_gen.Ribbon.Images.{
  Image, Images, max_image_bytes, image_name, index_out_of_range, Loaded, loaded, failed, and_then,
}

module _ {ℓ} {A : Type ℓ} where
  pub get_elem?-snoc_old :
      (xs : List A) (x y : A) (i : ℕ)
      → get_elem? xs i ≡ some y
      → get_elem? (xs ++ (x ∷ [])) i ≡ some y
  get_elem?-snoc_old [] x y i h = absurd (cc)
  get_elem?-snoc_old (a ∷ xs) x y zero h = h
  get_elem?-snoc_old (a ∷ xs) x y (suc i) h = get_elem?-snoc_old xs x y i h

  pub get_elem?-snoc_last : (xs : List A) (x : A) → get_elem? (xs ++ (x ∷ [])) (length xs) ≡ some x
  get_elem?-snoc_last [] x = refl
  get_elem?-snoc_last (a ∷ xs) x = get_elem?-snoc_last xs x

  pub get_elem?-snoc_cases :
      (xs : List A) (x y : A) (i : ℕ)
      → get_elem? (xs ++ (x ∷ [])) i ≡ some y
      → (get_elem? xs i ≡ some y) ⊎ ((i ≡ length xs) × (y ≡ x))
  get_elem?-snoc_cases [] x y zero h = inr (refl, cc)
  get_elem?-snoc_cases [] x y (suc i) h = absurd (cc)
  get_elem?-snoc_cases (a ∷ xs) x y zero h = inl h
  get_elem?-snoc_cases (a ∷ xs) x y (suc i) h = elim (get_elem?-snoc_cases xs x y i h) [
    | inl l ↦ inl l
    | inr (e, q) ↦ inr (ap suc e, q)
  ]

-- `P` holds of what was loaded, and a failure is no panic.
abbrev pub Then : (Images → Type 0) → Loaded → Type 0
Then P (loaded t) = P t
Then P (failed label e) = e ≢ index_out_of_range

pub and_then-Then :
    (P Q : Images → Type 0) (r : Loaded) (f : Images → Loaded)
    → Then P r
    → ((t : Images) → P t → Then Q (f t))
    → Then Q (and_then r f)
and_then-Then P Q (loaded t) f h k = k t h
and_then-Then P Q (failed label e) f h k = h

pub Then-weaken :
    (P Q : Images → Type 0) (r : Loaded) → Then P r → ((t : Images) → P t → Q t) → Then Q r
Then-weaken P Q (loaded t) h f = f t h
Then-weaken P Q (failed label e) h f = h

abbrev pub AtPath : List Image → Text → ℕ → Type 0
AtPath imgs p i = (img : Image) × (get_elem? imgs i ≡ some img) × (img.path ≡ p)

abbrev pub Names : (Text → Text) → List Image → Text → Text → Type 0
Names image_path imgs value name =
    (i : ℕ) × (img : Image) × (get_elem? imgs i ≡ some img)
    × (img.name ≡ name)
    × (img.path ≡ image_path value)

module _ (read_file : Text → Option (List ℕ)) where
  -- The image has its place's name and its file's contents, of a permitted size, and its path leads to it.
  abbrev pub IsImage : List (Text × ℕ) → ℕ → Image → Type 0
  IsImage by_path i img =
      (lookup img.path by_path ≡ some i)
      × (img.name ≡ image_name i)
      × (read_file img.path ≡ some img.contents)
      × (1 ≤ length img.contents)
      × (length img.contents ≤ max_image_bytes)

  abbrev pub IsLoaded : (Text → Text) → Images → Type 0
  IsLoaded image_path t =
      ((i : ℕ) (img : Image) → get_elem? t.imgs i ≡ some img → IsImage t.by_path i img)
      × Entries (AtPath t.imgs) t.by_path
      × Entries (Names image_path t.imgs) t.name_by_value

abbrev pub Keeps : Images → Images → Type 0
Keeps t v =
    (value name : Text)
    → lookup value t.name_by_value ≡ some name
    → lookup value v.name_by_value ≡ some name

-- A file's value has a name.
abbrev pub IsNamed : Unicode → Images → RibbonButton → Type 0
IsNamed u t btn =
    classify_ribbon_image u btn.image ≡ image_file
    → (name : Text) × (lookup btn.image t.name_by_value ≡ some name)

pub insert-other {ℓ} :
    {V : Type ℓ} (k j : Text) (v w : V) (m : List (Text × V))
    → lookup k m ≡ none
    → lookup j m ≡ some w
    → lookup j (insert k v m) ≡ some w
insert-other k j v w m n h =
    let d : k ≢ j = λ q. let e = ap (λ x. lookup x m) q in cc (e, n, h) in
    lookup-insert k j v m ∙ rw (≢→== k j d) h

pub insert-same {ℓ} :
    {V : Type ℓ} (k : Text) (v : V) (m : List (Text × V)) → lookup k (insert k v m) ≡ some v
insert-same k v m = rw (==_refl k) refl
