-- ===== src/Ribbon/Raw.antt =====
-- ValidateRawXML of internal/ribbon/ribbon.go. `tokens` is what encoding/xml reads in a file.
use xll_gen.Prelude.{
  ◌≡◌, ◌↔◌, ◌⊎◌, refl, sym, Bool, true, false, not, List, [], ◌∷◌, ◌++◌, Option, none, some, map,
  All, inl, inr, Bool-cases, ap, if◌then◌else◌, ◌==◌, ==→≡, ==_refl, text_eq, mem, subst, Text,
  codes,
}
use xll_gen.Config.{Command}
use xll_gen.Config.Names.{◌>>◌, fail_if, is_listed}
use xll_gen.Config.Iff.{Passes, ↔-trans, first-Passes, fail_if-Passes, needs-Passes, branch-Passes}
use xll_gen.Ribbon.{dynamic_callback_attrs}

-- The results of Decoder.Token until EOF or an error. A start element has its attributes' local names and
-- values.
pub data Tokens : Type 0 where
  eof parse_error : Tokens
  start_element : Text → List (Text × Text) → Tokens → Tokens
  other_token : Tokens → Tokens

pub data RawFault : Type 0 where
  unreadable malformed : RawFault
  unknown_action unsupported_callback : Text → Text → RawFault

module _ (commands : List Command) where
  abbrev pub known_command : Text → Bool
  known_command value = mem value (map (λ c. c.name) commands)

  unfoldable pub check_attr : Text → Text × Text → Option RawFault
  check_attr element (name, value) =
      if name == codes "onAction"
      then fail_if (not (known_command value)) (unknown_action value element)
      else fail_if (is_listed name dynamic_callback_attrs) (unsupported_callback name element)

  unfoldable pub check_attrs : Text → List (Text × Text) → Option RawFault
  unfolding check_attr
  check_attrs element [] = none
  check_attrs element (a ∷ attrs) = check_attr element a >> check_attrs element attrs

  unfoldable pub check_tokens : Tokens → Option RawFault
  unfolding check_attrs
  check_tokens eof = none
  check_tokens parse_error = some malformed
  check_tokens (start_element element attrs toks) = check_attrs element attrs >> check_tokens toks
  check_tokens (other_token toks) = check_tokens toks

-- After os.ReadFile: the content of the file, or the fault.
unfoldable pub check_content : (Text → Tokens) → List Command → Option Text → Text ⊎ RawFault
unfolding check_tokens
check_content tokens commands none = inr unreadable
check_content tokens commands (some raw) = elim (check_tokens commands (tokens raw)) [
  | none ↦ inl raw
  | some e ↦ inr e
]

abbrev pub validate_raw_xml :
    (Text → Option Text) → (Text → Tokens) → Text → List Command → Text ⊎ RawFault
validate_raw_xml read_file tokens path commands = check_content tokens commands (read_file path)

-- The attributes of all start elements, in order, unless the reader fails before the end.
abbrev pub attributes : Tokens → Option (List (Text × Text))
attributes eof = some []
attributes parse_error = none
attributes (start_element element attrs toks) = elim (attributes toks) [
  | none ↦ none
  | some rest ↦ some (attrs ++ rest)
]
attributes (other_token toks) = attributes toks

module _ (commands : List Command) where
  -- An action is a declared command, and no other attribute is in the list of callbacks.
  abbrev pub IsSupported : Text × Text → Type 0
  IsSupported (name, value) =
      (name ≡ codes "onAction" → known_command commands value ≡ true)
      × (is_listed name dynamic_callback_attrs ≡ false)

  no_callback :
      (name : Text) → name ≡ codes "onAction" → is_listed name dynamic_callback_attrs ≡ false
  unfolding dynamic_callback_attrs
  no_callback name e = subst (λ n. is_listed n dynamic_callback_attrs ≡ false) (sym e) refl

  check_attr-Passes :
      (element : Text) (a : Text × Text) → Passes (check_attr commands element a) ↔ IsSupported a
  unfolding check_attr
  check_attr-Passes element (name, value) =
      let (f, g) =
        branch-Passes (name == codes "onAction") _ _
          (needs-Passes (known_command commands value) (unknown_action value element))
          (fail_if-Passes (is_listed name dynamic_callback_attrs)
            (unsupported_callback name element)) in
      (
        λ p.
            let (y, n) = f p in
            (
              λ e. y (subst (λ s. (name == s) ≡ true) e (==_refl name)),
              elim (Bool-cases (name == codes "onAction")) [
                | inl q ↦ no_callback name (==→≡ name (codes "onAction") q)
                | inr q ↦ n q
              ],
            ),
        λ (y, n). g (λ q. y (==→≡ name (codes "onAction") q), λ q. n),
      )

  check_attrs-Passes :
      (element : Text) (attrs : List (Text × Text))
      → Passes (check_attrs commands element attrs) ↔ All IsSupported attrs
  unfolding check_attrs
  check_attrs-Passes element [] = (λ h. tt, λ h. refl)
  check_attrs-Passes element (a ∷ attrs) =
      first-Passes _ _ (check_attr-Passes element a) (check_attrs-Passes element attrs)

  -- A list that was read through, all of it supported.
  abbrev pub AllSupported : Option (List (Text × Text)) → Type 0
  AllSupported none = ⊥
  AllSupported (some attrs) = All IsSupported attrs

  joined-AllSupported :
      (attrs : List (Text × Text)) (rest : Option (List (Text × Text)))
      → (All IsSupported attrs × AllSupported rest)
        ↔ AllSupported (elim rest [ none ↦ none | some bs ↦ some (attrs ++ bs) ])
  joined-AllSupported attrs none = (λ (a, r). r, λ r. absurd r)
  joined-AllSupported [] (some rest) = (λ (a, r). r, λ r. (tt, r))
  joined-AllSupported (a ∷ attrs) (some rest) =
      let (f, g) = joined-AllSupported attrs (some rest) in
      (λ ((p, ps), r). (p, f (ps, r)), λ (p, ps). let (qs, r) = g ps in ((p, qs), r))

  check_tokens-Passes :
      (toks : Tokens) → Passes (check_tokens commands toks) ↔ AllSupported (attributes toks)
  unfolding check_tokens
  check_tokens-Passes eof = (λ h. tt, λ h. refl)
  check_tokens-Passes parse_error = (λ h. cc, λ h. absurd h)
  check_tokens-Passes (start_element element attrs toks) =
      ↔-trans (first-Passes _ _ (check_attrs-Passes element attrs) (check_tokens-Passes toks))
        (joined-AllSupported attrs (attributes toks))
  check_tokens-Passes (other_token toks) = check_tokens-Passes toks

  accepted :
      (tokens : Text → Tokens) (text raw : Text) (c : Option RawFault)
      → Passes c ↔ AllSupported (attributes (tokens text))
      → ((elim c as (λ _. Text ⊎ RawFault) [ none ↦ inl text | some e ↦ inr e ]) ≡ inl raw)
        ↔ ((some text ≡ some raw) × AllSupported (attributes (tokens raw)))
  accepted tokens text raw none (f, g) = (
    λ h.
        let e : text ≡ raw = cc in
        (ap some e, subst (λ t. AllSupported (attributes (tokens t))) e (f refl)),
    λ (h, s). let e : text ≡ raw = cc in ap inl e,
  )
  accepted tokens text raw (some x) (f, g) = (
    λ h. absurd (cc),
    λ (h, s).
        let e : raw ≡ text = cc in
        let q = g (subst (λ t. AllSupported (attributes (tokens t))) e s) in absurd (cc),
  )

  check_content_iff :
      (tokens : Text → Tokens) (content : Option Text) (raw : Text)
      → (check_content tokens commands content ≡ inl raw)
        ↔ ((content ≡ some raw) × AllSupported (attributes (tokens raw)))
  unfolding check_content
  check_content_iff tokens none raw = (λ h. absurd (cc), λ (h, s). absurd (cc))
  check_content_iff tokens (some text) raw =
      accepted tokens text raw _ (check_tokens-Passes (tokens text))

  -- A ribbon file is accepted, with its content as the result, exactly when it can be read to the end,
  -- every action in it names a declared command, and no attribute has a name of dynamicCallbackAttrs.
  pub validate_raw_xml_iff :
      (read_file : Text → Option Text) (tokens : Text → Tokens) (path raw : Text)
      → (validate_raw_xml read_file tokens path commands ≡ inl raw)
        ↔ ((read_file path ≡ some raw) × AllSupported (attributes (tokens raw)))
  validate_raw_xml_iff read_file tokens path raw = check_content_iff tokens (read_file path) raw
