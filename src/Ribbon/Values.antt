-- ===== src/Ribbon/Values.antt =====
-- How an XML reader reads the values that `escape` and `character_references` of
-- internal/ribbon/ribbon.go write: xml.EscapeText and ToCppRawLiteral together.
use xll_gen.Prelude.{
  ℕ, zero, suc, ◌+◌, ◌-◌, ◌*◌, ◌/◌, ◌%◌, ◌<◌, ◌≡◌, refl, sym, ap, subst, ◌∙◌, Bool, true, false,
  ◌||◌, is_digit, [], ◌∷◌, ◌++◌, Option, none, some, All, if◌then◌else◌, if-kept, ◌==◌, ==→≡,
  nat_eq, text_eq, ltb, Text, codes, append_assoc, arith,
}
use xll_gen.Config.Names.{is_hex}
use xll_gen.Generator.Literals.{hex_digit}
use xll_gen.Ribbon.{is_xml_char, escape_xml_rune, escape, hex_from, character_references}

-- In the text, in a named reference, after `&#`, and in a number.
pub data Mode : Type 0 where
  plain hash : Mode
  named : Text → Mode
  decimal hexadecimal : ℕ → Mode

abbrev pub entity : Text → Option ℕ
entity name =
    if name == codes "amp"
    then some b'&'
    else if name == codes "lt"
    then some b'<'
    else if name == codes "gt"
    then some b'>'
    else none

abbrev pub prepend : ℕ → Option (Text × Text) → Option (Text × Text)
prepend c none = none
prepend c (some (s, rest)) = some (c ∷ s, rest)

abbrev prepend_entity : Option ℕ → Option (Text × Text) → Option (Text × Text)
prepend_entity none r = none
prepend_entity (some c) r = prepend c r

abbrev pub hex_value : ℕ → ℕ
hex_value c = if ltb c 58 then c - 48 else if ltb c 97 then c - 55 else c - 87

-- A number that a reference gives: XML forbids it to be another character than these.
abbrev character : ℕ → Option (Text × Text) → Option (Text × Text)
character v r = elim (is_xml_char v) [ true ↦ prepend v r | false ↦ none ]

-- A control character as it stands: an attribute's white space is read as blanks.
abbrev control : ℕ → Option (Text × Text) → Option (Text × Text)
control c r = if (c == 9) || (c == 10) || (c == 13) then prepend 32 r else none

-- The value of an attribute, up to the quote, and what follows the quote. A `<` has no place in it.
abbrev pub read : Mode → Text → Option (Text × Text)
read m [] = none
read plain (c ∷ s) = elim (c == b'"') [
  | true ↦ some ([], s)
  | false ↦ elim (c == b'&') [
    | true ↦ read (named []) s
    | false ↦ elim (c == b'<') [
      | true ↦ none
      | false ↦ elim (ltb c 32) [
        | true ↦ control c (read plain s)
        | false ↦ prepend c (read plain s)
      ]
    ]
  ]
]
read (named name) (c ∷ s) = elim (c == b';') [
  | true ↦ prepend_entity (entity name) (read plain s)
  | false ↦ elim (c == b'#') [ true ↦ read hash s | false ↦ read (named (name ++ (c ∷ []))) s ]
]
read hash (c ∷ s) = elim (c == b'x') [
  | true ↦ read (hexadecimal 0) s
  | false ↦ elim (is_digit c) [ true ↦ read (decimal (c - 48)) s | false ↦ none ]
]
read (decimal v) (c ∷ s) = elim (c == b';') [
  | true ↦ character v (read plain s)
  | false ↦ elim (is_digit c) [ true ↦ read (decimal (v * 10 + (c - 48))) s | false ↦ none ]
]
read (hexadecimal v) (c ∷ s) = elim (c == b';') [
  | true ↦ character v (read plain s)
  | false ↦ elim (is_hex c) [ true ↦ read (hexadecimal (v * 16 + hex_value c)) s | false ↦ none ]
]

-- The branch that is taken.
no_case {ℓ} :
    {A : Type ℓ} (b : Bool) (x y : A)
    → b ≡ false
    → (elim b as (λ _. A) [ true ↦ x | false ↦ y ]) ≡ y
no_case true x y h = absurd (cc)
no_case false x y h = refl

yes_case {ℓ} :
    {A : Type ℓ} (b : Bool) (x y : A) → b ≡ true → (elim b as (λ _. A) [ true ↦ x | false ↦ y ]) ≡ x
yes_case true x y h = refl
yes_case false x y h = absurd (cc)

digit-read :
    (v c : ℕ) (s : Text)
    → (c == b';') ≡ false
    → is_hex c ≡ true
    → read (hexadecimal v) (c ∷ s) ≡ read (hexadecimal (v * 16 + hex_value c)) s
digit-read v c s h k = no_case (c == b';') _ _ h ∙ yes_case (is_hex c) _ _ k

hex_digit_value : (d : ℕ) → d < 16 → hex_value (hex_digit d) ≡ d
unfolding hex_digit
hex_digit_value d h =
    if-kept (λ c. hex_value c ≡ d) (ltb d 10) _ _ (λ y. ground (arith, y)) (λ n. ground (arith, n))

hex_digit_open : (d : ℕ) → d < 16 → (hex_digit d == b';') ≡ false
unfolding hex_digit
hex_digit_open d h =
    if-kept (λ (c : ℕ). (c == b';') ≡ false) (ltb d 10) _ _ (λ y. ground (arith, y))
      (λ n. ground (arith, n))

hex_digit_hex : (d : ℕ) → d < 16 → is_hex (hex_digit d) ≡ true
unfolding hex_digit
hex_digit_hex d h =
    if-kept (λ (c : ℕ). is_hex c ≡ true) (ltb d 10) _ _ (λ y. ground (arith, y))
      (λ n. ground (arith, n))

hex_digit-read :
    (v d : ℕ) (s : Text)
    → d < 16
    → read (hexadecimal v) (hex_digit d ∷ s) ≡ read (hexadecimal (v * 16 + d)) s
hex_digit-read v d s h =
    digit-read v (hex_digit d) s (hex_digit_open d h) (hex_digit_hex d h)
    ∙ ap (λ w. read (hexadecimal (v * 16 + w)) s) (hex_digit_value d h)

hex_from-read :
    (fuel n : ℕ) (acc : Text)
    → n < fuel
    → read (hexadecimal 0) (hex_from fuel n acc) ≡ read (hexadecimal n) acc
hex_from-read zero n acc h = absurd (omega arith)
hex_from-read (suc fuel) n acc h =
    if-kept (λ s. read (hexadecimal 0) s ≡ read (hexadecimal n) acc) (ltb n 16) _
      (hex_from fuel (n / 16) (hex_digit (n % 16) ∷ acc))
      (λ y.
        hex_digit-read 0 n acc (ground (arith, y))
        ∙ ap (λ v. read (hexadecimal v) acc) (omega arith))
      (λ k.
        hex_from-read fuel (n / 16) (hex_digit (n % 16) ∷ acc) (ground (arith, k, h))
        ∙ hex_digit-read (n / 16) (n % 16) acc (omega arith)
        ∙ ap (λ v. read (hexadecimal v) acc) (omega arith))

plain-read :
    (c : ℕ) (s : Text)
    → (c == b'"') ≡ false
    → (c == b'&') ≡ false
    → (c == b'<') ≡ false
    → ltb c 32 ≡ false
    → read plain (c ∷ s) ≡ prepend c (read plain s)
plain-read c s q a l w =
    no_case (c == b'"') _ _ q
    ∙ no_case (c == b'&') _ _ a
    ∙ no_case (c == b'<') _ _ l
    ∙ no_case (ltb c 32) _ _ w

-- One rune, whatever follows.
abbrev Reads : Text → ℕ → Text → Type 0
Reads t r v =
    read plain (character_references (v ++ t)) ≡ prepend r (read plain (character_references t))

plain-Reads :
    (t : Text) (r : ℕ)
    → (r == b'"') ≡ false
    → (r == b'&') ≡ false
    → (r == b'<') ≡ false
    → ltb r 32 ≡ false
    → is_xml_char r ≡ true
    → Reads t r (r ∷ [])
plain-Reads t r q a l w ok =
    if-kept (λ s. read plain s ≡ prepend r (read plain (character_references t))) (ltb 127 r) _ _
      (λ y.
        hex_from-read (suc r) r (b';' ∷ character_references t) (omega arith)
        ∙ yes_case (is_xml_char r) _ _ ok)
      (λ n. plain-read r (character_references t) q a l w)

-- A character that is no control character with a reference of its own is none at all.
no_control :
    (r : ℕ)
    → is_xml_char r ≡ true
    → (r == 9) ≡ false
    → (r == 10) ≡ false
    → (r == 13) ≡ false
    → ltb r 32 ≡ false
no_control r ok n9 n10 n13 = ground (arith, ok, n9, n10, n13)

-- A rune that has a reference of its own.
special-Reads : (t : Text) (r c : ℕ) (v : Text) → (r == c) ≡ true → Reads t c v → Reads t r v
special-Reads t r c v e h = subst (λ d. Reads t d v) (sym (==→≡ r c e)) h

escape_xml_rune-Reads : (t : Text) (r : ℕ) → is_xml_char r ≡ true → Reads t r (escape_xml_rune r)
unfolding escape_xml_rune
escape_xml_rune-Reads t r ok =
    if-kept (Reads t r) (r == b'"') _ _ (λ y. special-Reads t r b'"' (codes "&#34;") y refl)
      (λ q.
        if-kept (Reads t r) (r == b'\'') _ _ (λ y. special-Reads t r b'\'' (codes "&#39;") y refl)
          (λ _.
            if-kept (Reads t r) (r == b'&') _ _ (λ y. special-Reads t r b'&' (codes "&amp;") y refl)
              (λ a.
                if-kept (Reads t r) (r == b'<') _ _
                  (λ y. special-Reads t r b'<' (codes "&lt;") y refl)
                  (λ l.
                    if-kept (Reads t r) (r == b'>') _ _
                      (λ y. special-Reads t r b'>' (codes "&gt;") y refl)
                      (λ _.
                        if-kept (Reads t r) (r == 9) _ _
                          (λ y. special-Reads t r 9 (codes "&#x9;") y refl)
                          (λ n9.
                            if-kept (Reads t r) (r == 10) _ _
                              (λ y. special-Reads t r 10 (codes "&#xA;") y refl)
                              (λ n10.
                                if-kept (Reads t r) (r == 13) _ _
                                  (λ y. special-Reads t r 13 (codes "&#xD;") y refl)
                                  (λ n13.
                                    if-kept (Reads t r) (is_xml_char r) _ _
                                      (λ y. plain-Reads t r q a l (no_control r ok n9 n10 n13) ok)
                                      (λ n. absurd (cc (n, ok)))))))))))

pub escape-read-plain :
    (s rest : Text)
    → All (λ r. is_xml_char r ≡ true) s
    → read plain (character_references (escape s ++ (b'"' ∷ rest)))
      ≡ some (s, character_references rest)
escape-read-plain [] rest h = refl
escape-read-plain (r ∷ s) rest (ok, h) =
    ap (λ t. read plain (character_references t))
      (append_assoc (escape_xml_rune r) (escape s) (b'"' ∷ rest))
    ∙ escape_xml_rune-Reads (escape s ++ (b'"' ∷ rest)) r ok
    ∙ ap (prepend r) (escape-read-plain s rest h)
