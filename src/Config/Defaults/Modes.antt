-- ===== src/Config/Defaults/Modes.antt =====
-- The modes of functions after ApplyDefaults (internal/config/config.go).
use xll_gen.Prelude.{
  ℕ, ◌≤◌, ◌≡◌, ◌≢◌, refl, Bool, true, false, ◌||◌, inl, inr, [], ◌∷◌, All, ◌==◌, nat_eq, text_eq,
  ==→≡, Bool-cases, Text, codes, mem, Unicode, to_lower, rune_to_lower, rune_folds, equal_fold,
  arith, ◌∙◌, ap, sym, subst,
}
use xll_gen.Config.{Function}
use xll_gen.Config.Functions.{is, is_mode}
use xll_gen.Config.Defaults.{function_defaults}
use xll_gen.Config.Valid.{is_rtd, is_once}

-- No rune beyond ASCII folds to a letter of "rtd-once", or has one as its lower case.
abbrev pub FoldsApart : Unicode → Type 0
FoldsApart u =
    (c d : ℕ)
    → 128 ≤ c
    → mem d (codes "rtd-once") ≡ true
    → (u.fold c d ≡ false) × ((u.lower c == d) ≡ false)

-- A mode that consumers know: they compare without folding.
abbrev pub is_exact : Text → Bool
is_exact m = is m "sync" || is m "async" || is m "rtd" || is m "rtd-once"

module _ (u : Unicode) (apart : FoldsApart u) where
  -- A letter of these words is its own lower case.
  rune_folds-lower :
      (c d : ℕ) → mem d (codes "rtd-once") ≡ true → rune_folds u c d ≡ (rune_to_lower u c == d)
  unfolding rune_folds rune_to_lower
  rune_folds-lower c d h = ground (arith, apart c d)

  abbrev IsWord : Text → Type 0
  IsWord = All (λ d. mem d (codes "rtd-once") ≡ true)

  equal_fold-lower : (s t : Text) → IsWord t → equal_fold u s t ≡ (to_lower u s == t)
  equal_fold-lower [] [] h = refl
  equal_fold-lower [] (d ∷ t) h = refl
  equal_fold-lower (c ∷ s) [] h = refl
  equal_fold-lower (c ∷ s) (d ∷ t) h =
      let e = rune_folds-lower c d h.0 in let ih = equal_fold-lower s t h.1 in ground (arith, e, ih)

  is_rtd-lower : (fn : Function) → is_rtd u fn ≡ is (to_lower u fn.mode) "rtd"
  is_rtd-lower fn = equal_fold-lower fn.mode (codes "rtd") (refl, (refl, (refl, tt)))

  is_once-lower : (fn : Function) → is_once u fn ≡ is (to_lower u fn.mode) "rtd-once"
  is_once-lower fn =
      equal_fold-lower fn.mode (codes "rtd-once")
        (refl, (refl, (refl, (refl, (refl, (refl, (refl, (refl, tt))))))))

  lower_nil : (s : Text) → (to_lower u s == []) ≡ true → s ≡ []
  lower_nil [] h = refl
  lower_nil (c ∷ s) h = cc

  lower_set : (s : Text) → (to_lower u s == []) ≡ false → s ≢ []
  lower_set [] h = cc
  lower_set (c ∷ s) h = λ q. cc

  -- One of the four modes, with the flag that goes with it, and the same RTD mode as before.
  abbrev pub Normal : Function → Function → Type 0
  Normal fn fn' =
      (is_exact fn'.mode ≡ true)
      × (fn'.is_async ≡ is fn'.mode "async")
      × (is fn'.mode "rtd" ≡ is_rtd u fn)
      × (is fn'.mode "rtd-once" ≡ is_once u fn)

  pub function_defaults-Normal :
      (fn : Function)
      → (fn.mode ≢ [] → is_mode u fn.mode ≡ true)
      → Normal fn (function_defaults u fn)
  unfolding function_defaults
  function_defaults-Normal fn h =
      let e = is_rtd-lower fn in
      let o = is_once-lower fn in
      elim (Bool-cases (to_lower u fn.mode == [])) [
        | inl y ↦
            let n : fn.mode ≡ [] = lower_nil fn.mode y in
            let r : is_rtd u fn ≡ false = ap (λ m. equal_fold u m (codes "rtd")) n in
            let q : is_once u fn ≡ false = ap (λ m. equal_fold u m (codes "rtd-once")) n in
            elim (Bool-cases fn.is_async) [
              | inl a ↦ rw y (rw a (refl, refl, sym r, sym q))
              | inr a ↦ rw y (rw a (refl, refl, sym r, sym q))
            ]
        | inr x ↦ let k = h (lower_set fn.mode x) in rw x (k, refl, sym e, sym o)
      ]

  word_lower : (m : Text) → is_exact m ≡ true → to_lower u m ≡ m
  unfolding rune_to_lower
  word_lower m h = elim (Bool-cases (is m "sync")) [
    | inl y ↦ let e = ==→≡ m (codes "sync") y in subst (λ w. to_lower u w ≡ w) (sym e) refl
    | inr a ↦ elim (Bool-cases (is m "async")) [
      | inl y ↦ let e = ==→≡ m (codes "async") y in subst (λ w. to_lower u w ≡ w) (sym e) refl
      | inr b ↦ elim (Bool-cases (is m "rtd")) [
        | inl y ↦ let e = ==→≡ m (codes "rtd") y in subst (λ w. to_lower u w ≡ w) (sym e) refl
        | inr c ↦
            let y : is m "rtd-once" ≡ true = ground (arith, a, b, c, h) in
            let e = ==→≡ m (codes "rtd-once") y in subst (λ w. to_lower u w ≡ w) (sym e) refl
      ]
    ]
  ]

  -- Asked without regard to case, the new mode gives the same answers as the old one.
  pub function_defaults-modes :
      (fn : Function)
      → (fn.mode ≢ [] → is_mode u fn.mode ≡ true)
      → let fn' = function_defaults u fn in
        (is_mode u fn'.mode ≡ true) × (is_rtd u fn' ≡ is_rtd u fn) × (is_once u fn' ≡ is_once u fn)
  function_defaults-modes fn h =
      let fn' = function_defaults u fn in
      let (word, flag, rtd, once) = function_defaults-Normal fn h in
      let l = word_lower fn'.mode word in
      (
        subst (λ w. is_exact w ≡ true) (sym l) word,
        is_rtd-lower fn' ∙ ap (λ w. is w "rtd") l ∙ rtd,
        is_once-lower fn' ∙ ap (λ w. is w "rtd-once") l ∙ once,
      )
