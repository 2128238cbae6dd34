-- ===== src/Generator/Literals/RoundTrip.antt =====
-- The literals that internal/generator/funcmap.go writes stand for the texts they are written from.
use xll_gen.Prelude.{
  ℕ, zero, suc, ◌%◌, ◌≢◌, ==→≡, ==→≢, ◌<◌, ◌≡◌, refl, true, false, ◌&&◌, ◌||◌, [], ◌∷◌, ◌++◌, none,
  some, All, ◌==◌, nat_eq, ltb, leb, Text, codes, ≢→==, All-append, arith, Bool-cases, append_assoc,
  inl, inr, ap, sym, ◌∙◌, if-kept,
}
use xll_gen.Generator.Literals.{
  hex_digit, shift, hex_digits, escaped, c_escape, wide_rune, wide_runes, cpp_wide_literal,
  escape_rune, escape_cpp_string,
}
use xll_gen.Generator.Literals.Decode.{
  inside, backslash, is_scalar, read, emit, decode_from, decode_literal, decode_step, decode_u,
  decode_big,
}

module _ (r : ℕ) (t : Text) where
  -- `x` stands for the rune.
  abbrev Stands : Text → Type 0
  Stands x = decode_from inside (x ++ t) ≡ emit (some r) (decode_from inside t)

  plain-Stands : ltb r 32 ≡ false → r ≢ b'\\' → r ≢ b'"' → Stands (r ∷ [])
  unfolding read
  plain-Stands a b c =
      decode_step inside inside (some r) r t (rw (≢→== r b'"' c) (rw (≢→== r b'\\' b) (rw a refl)))

  escaped-Stands :
      (c d : ℕ) → read backslash c ≡ (inside, some d) → (r == d) ≡ true → Stands (escaped c)
  unfolding read
  escaped-Stands c d h y =
      decode_step inside backslash none b'\\' (c ∷ t) refl
      ∙ decode_step backslash inside (some r) c t
          (h ∙ ap (λ x. (inside, some x)) (sym (==→≡ r d y)))

  c_escape-Stands :
      (other : Text) → (r ≢ b'\\' → r ≢ b'"' → Stands other) → Stands (c_escape r other)
  unfolding c_escape read
  c_escape-Stands other h = if-kept Stands (r == b'\\') _ _ (escaped-Stands b'\\' b'\\' refl) (λ a.
      if-kept Stands (r == b'"') _ _ (escaped-Stands b'"' b'"' refl) (λ b.
        if-kept Stands (r == 10) _ _ (escaped-Stands b'n' 10 refl) (λ n.
          if-kept Stands (r == 13) _ _ (escaped-Stands b'r' 13 refl) (λ m.
            if-kept Stands (r == 9) _ _ (escaped-Stands b't' 9 refl)
              (λ k. h (==→≢ r b'\\' a) (==→≢ r b'"' b))))))

  wide_rune-Stands : is_scalar r ≡ true → Stands (wide_rune r)
  unfolding wide_rune
  wide_rune-Stands k = c_escape-Stands _ (λ a b.
      if-kept Stands (ltb r 32 || ltb 126 r) _ (r ∷ [])
        (λ y.
          if-kept Stands (ltb 65535 r) (escaped b'U' ++ hex_digits 8 r)
            (escaped b'u' ++ hex_digits 4 r) (λ big. decode_big r t k)
            (λ small. decode_u r t k (ground (arith, small))))
        (λ n. plain-Stands (ground (arith, n)) a b))

  escape_rune-Stands : is_scalar r ≡ true → Stands (escape_rune r)
  unfolding escape_rune
  escape_rune-Stands k = c_escape-Stands _ (λ a b.
      if-kept Stands (ltb r 32) (escaped b'u' ++ hex_digits 4 r) (r ∷ [])
        (λ y. decode_u r t k (ground (arith, y))) (λ n. plain-Stands n a b))

wide_runes-decode :
    (s : Text) → All (λ r. is_scalar r ≡ true) s → decode_from inside (wide_runes s) ≡ some s
unfolding read
wide_runes-decode [] h = refl
wide_runes-decode (r ∷ s) (k, h) =
    wide_rune-Stands r (wide_runes s) k ∙ ap (emit (some r)) (wide_runes-decode s h)

escape-decode :
    (s : Text)
    → All (λ r. is_scalar r ≡ true) s
    → decode_from inside (escape_cpp_string s ++ codes "\"") ≡ some s
unfolding read
escape-decode [] h = refl
escape-decode (r ∷ s) (k, h) =
    ap (decode_from inside) (append_assoc (escape_rune r) (escape_cpp_string s) (codes "\""))
    ∙ escape_rune-Stands r (escape_cpp_string s ++ codes "\"") k
    ∙ ap (emit (some r)) (escape-decode s h)

-- Every character is printable ASCII.
abbrev pub IsPlainAscii : Text → Type 0
IsPlainAscii = All (λ c. (leb 32 c && leb c 126) ≡ true)

hex_digit_plain : (d : ℕ) → d < 16 → (leb 32 (hex_digit d) && leb (hex_digit d) 126) ≡ true
unfolding hex_digit
hex_digit_plain d h = elim (Bool-cases (ltb d 10)) [
  | inl y ↦ rw y (ground (arith, y, h))
  | inr n ↦ rw n (ground (arith, n, h))
]

hex_digits-IsPlainAscii : (w n : ℕ) → IsPlainAscii (hex_digits w n)
hex_digits-IsPlainAscii zero n = tt
hex_digits-IsPlainAscii (suc w) n =
    (hex_digit_plain (shift w n % 16) (omega arith), hex_digits-IsPlainAscii w n)

escaped-IsPlainAscii : (c : ℕ) → (leb 32 c && leb c 126) ≡ true → IsPlainAscii (escaped c)
escaped-IsPlainAscii c p = (refl, (p, tt))

wide_rune-IsPlainAscii : (r : ℕ) → IsPlainAscii (wide_rune r)
unfolding wide_rune c_escape
wide_rune-IsPlainAscii r =
    if-kept IsPlainAscii (r == b'\\') _ _ (λ y. escaped-IsPlainAscii b'\\' refl)
      (λ a.
        if-kept IsPlainAscii (r == b'"') _ _ (λ y. escaped-IsPlainAscii b'"' refl)
          (λ b.
            if-kept IsPlainAscii (r == 10) _ _ (λ y. escaped-IsPlainAscii b'n' refl)
              (λ n.
                if-kept IsPlainAscii (r == 13) _ _ (λ y. escaped-IsPlainAscii b'r' refl)
                  (λ m.
                    if-kept IsPlainAscii (r == 9) _ _ (λ y. escaped-IsPlainAscii b't' refl)
                      (λ k.
                        if-kept IsPlainAscii (ltb r 32 || ltb 126 r) _ (r ∷ [])
                          (λ y.
                            if-kept IsPlainAscii (ltb 65535 r) _ _
                              (λ big. (refl, (refl, hex_digits-IsPlainAscii 8 r)))
                              (λ small. (refl, (refl, hex_digits-IsPlainAscii 4 r))))
                          (λ q. (ground (arith, q), tt)))))))

wide_runes-IsPlainAscii : (s : Text) → IsPlainAscii (wide_runes s)
wide_runes-IsPlainAscii [] = (refl, tt)
wide_runes-IsPlainAscii (r ∷ s) =
    All-append _ (wide_rune r) (wide_runes s) (wide_rune-IsPlainAscii r) (wide_runes-IsPlainAscii s)

-- The literal that cppWideLiteral writes for a text of Unicode scalar values is printable ASCII, and what
-- C++ reads in it is the text.
pub cpp_wide_literal-decode_literal :
    (s : Text)
    → All (λ r. is_scalar r ≡ true) s
    → (decode_literal (cpp_wide_literal s) ≡ some s) × IsPlainAscii (cpp_wide_literal s)
unfolding read
cpp_wide_literal-decode_literal s h =
    (wide_runes-decode s h, (refl, (refl, wide_runes-IsPlainAscii s)))

-- Between the quotes of a wide literal, what escapeCppString writes for a text of Unicode scalar values is
-- read as the text.
pub escape_cpp_string-decode_literal :
    (s : Text)
    → All (λ r. is_scalar r ≡ true) s
    → decode_literal (codes "L\"" ++ escape_cpp_string s ++ codes "\"") ≡ some s
unfolding read
escape_cpp_string-decode_literal s h = escape-decode s h
