-- ===== src/Ribbon/RoundTrip.antt =====
-- ToCppRawLiteral of internal/ribbon/ribbon.go: what a C++ compiler reads in the literal, and what an XML
-- reader then reads in it.
use xll_gen.Prelude.{
  ℕ, ◌≡◌, refl, ap, subst, ◌∙◌, Bool, true, false, [], ◌∷◌, ◌++◌, Option, none, some, All, ◌&&◌,
  ◌||◌, ◌==◌, nat_eq, drop, length, Text, codes, Bool-cases, inl, inr,
}
use xll_gen.Ribbon.{
  is_xml_char, escape, character_references, starts_with, contains, raw_delimiter, without_bom,
  to_cpp_raw_literal,
}
use xll_gen.Ribbon.Values.{read, plain, prepend, escape-read-plain}
use xll_gen.Ribbon.Literal.{
  is_ascii, IsDelimiter, character_references-All, character_references-contains,
  character_references-append,
}

-- What follows the prefix.
abbrev pub after : Text → Text → Option Text
after [] s = some s
after (c ∷ p) [] = none
after (c ∷ p) (d ∷ s) = elim (c == d) [ true ↦ after p s | false ↦ none ]

-- Up to the first occurrence of the delimiter, and what follows that.
abbrev pub until : Text → Text → Option (Text × Text)
until d [] = none
until d (c ∷ s) = elim (starts_with d (c ∷ s)) [
  | true ↦ some ([], drop (length d) (c ∷ s))
  | false ↦ prepend c (until d s)
]

abbrev whole : Option (Text × Text) → Option Text
whole none = none
whole (some (s, [])) = some s
whole (some (s, c ∷ rest)) = none

abbrev closed : Option Text → Option Text
closed none = none
closed (some s) = whole (until raw_delimiter s)

-- A C++ raw string literal with the delimiter XLLRIBBON and nothing after it.
abbrev pub read_literal : Text → Option Text
read_literal lit = closed (after (codes "LR\"XLLRIBBON(") lit)

-- An occurrence of `p` cannot reach into what begins with a character that it does not have.
starts_with-before :
    (p s t : Text)
    → All (λ c. (c == b')') ≡ false) p
    → starts_with p (s ++ (b')' ∷ t)) ≡ starts_with p s
starts_with-before [] s t h = refl
starts_with-before (c ∷ p) [] t (n, h) = ap (λ b. b && starts_with p t) n
starts_with-before (c ∷ p) (d ∷ s) t (n, h) = ap (λ b. (c == d) && b) (starts_with-before p s t h)

or_none : (a b : Bool) → (a || b) ≡ false → (a ≡ false) × (b ≡ false)
or_none true b h = absurd (cc)
or_none false b h = (refl, h)

scan :
    (d : Text) (b : Bool) (c : ℕ) (s : Text)
    → starts_with d (c ∷ s) ≡ b
    → b ≡ false
    → until d (c ∷ s) ≡ prepend c (until d s)
scan d b c s e h =
    ap
      (λ b. elim b as (λ _. Option (Text × Text)) [
        | true ↦ some ([], drop (length d) (c ∷ s))
        | false ↦ prepend c (until d s)
      ])
      (e ∙ h)

until_end :
    (p s : Text)
    → All (λ c. (c == b')') ≡ false) p
    → until (b')' ∷ p) (b')' ∷ p) ≡ some ([], [])
    → contains (b')' ∷ p) s ≡ false
    → until (b')' ∷ p) (s ++ (b')' ∷ p)) ≡ some (s, [])
until_end p [] n last h = last
until_end p (c ∷ s) n last h =
    let (first, rest) = or_none (starts_with (b')' ∷ p) (c ∷ s)) (contains (b')' ∷ p) s) h in
    scan (b')' ∷ p) _ c (s ++ (b')' ∷ p)) (ap (λ b. (b')' == c) && b) (starts_with-before p s p n))
      first
    ∙ ap (prepend c) (until_end p s n last rest)

abbrev delimiter_rest : Text
delimiter_rest = codes "XLLRIBBON\""

rest_IsDelimiter : All IsDelimiter delimiter_rest
rest_IsDelimiter = search

rest_unlike : All (λ c. (c == b')') ≡ false) delimiter_rest
rest_unlike = search

-- A C++ compiler reads in the literal the whole text that was put into it.
literal_text :
    (xml lit : Text)
    → to_cpp_raw_literal xml ≡ some lit
    → read_literal lit ≡ some (character_references (without_bom xml))
unfolding to_cpp_raw_literal
literal_text xml lit e = elim (Bool-cases (contains raw_delimiter (without_bom xml))) [
  | inl bad ↦ absurd (cc (rw bad at e))
  | inr good ↦
      let body = character_references (without_bom xml) in
      let clean =
        character_references-contains delimiter_rest (without_bom xml) rest_IsDelimiter ∙ good in
      let q : codes "LR\"XLLRIBBON(" ++ (body ++ raw_delimiter) ≡ lit =
        let f = rw good at e in cc in
      subst (λ l. read_literal l ≡ some body) q
        (ap whole (until_end delimiter_rest body rest_unlike refl clean))
]

-- Take a literal that ToCppRawLiteral makes of an XML text in which, after a byte-order mark if there is
-- one and any beginning, the value of an
-- attribute stands as `escape` writes it, of characters that XML allows, before its closing quote. A C++
-- compiler reads in the literal an ASCII text, to the end; and where the value stands in that, an XML
-- reader, which takes no `<` and turns white space into blanks, reads the value that was escaped.
pub to_cpp_raw_literal-read_literal :
    (xml before s rest lit : Text)
    → All (λ r. is_xml_char r ≡ true) s
    → without_bom xml ≡ before ++ (escape s ++ (b'"' ∷ rest))
    → to_cpp_raw_literal xml ≡ some lit
    → let value = character_references (escape s ++ (b'"' ∷ rest)) in
      let body = character_references before ++ value in
      (read_literal lit ≡ some body)
      × All (λ c. is_ascii c ≡ true) body
      × (read plain value ≡ some (s, character_references rest))
to_cpp_raw_literal-read_literal xml before s rest lit ok holds e =
    let same =
      ap character_references holds
      ∙ character_references-append before (escape s ++ (b'"' ∷ rest)) in
    (
      literal_text xml lit e ∙ ap some same,
      subst (All (λ c. is_ascii c ≡ true)) same (character_references-All (without_bom xml)),
      escape-read-plain s rest ok,
    )
