-- ===== src/Generator/Literals/Decode.antt =====
-- What a C++ compiler reads in a wide string literal: a decoder that knows nothing of the encoder
-- (internal/generator/funcmap.go), and that it gives the text back.
use xll_gen.Prelude.{
  ℕ, zero, suc, ◌+◌, ◌*◌, ◌-◌, ◌/◌, ◌%◌, ◌<◌, ◌≤◌, ◌≡◌, refl, Bool, true, false, ◌&&◌, ◌||◌, [],
  ◌∷◌, ◌++◌, Option, none, some, if◌then◌else◌, ◌==◌, nat_eq, ltb, leb, is_digit, Text, arith,
  Bool-cases, inl, inr, ap, sym, ◌∙◌,
}
use xll_gen.Generator.Literals.{hex_digit, shift, hex_digits, escaped}

-- Before the literal, in its text, after a backslash, before the last of so many more digits, after it.
pub data Reading : Type 0 where
  prefix opening inside backslash closed broken : Reading
  digits : ℕ → ℕ → Reading

unfoldable pub hex_value : ℕ → Option ℕ
hex_value c =
    if is_digit c
    then some (c - 48)
    else if leb b'A' c && leb c b'F'
    then some (c - 55)
    else if leb b'a' c && leb c b'f'
    then some (c - 87)
    else none

-- No surrogate, and in the code space.
unfoldable pub is_scalar : ℕ → Bool
is_scalar v = ltb v 55296 || (ltb 57343 v && ltb v 1114112)

unfoldable pub add_digit : ℕ → ℕ → Option ℕ → Reading × Option ℕ
add_digit n v none = (broken, none)
add_digit zero v (some d) =
    let w = v * 16 + d in if is_scalar w then (inside, some w) else (broken, none)
add_digit (suc n) v (some d) = (digits n (v * 16 + d), none)

-- What one character does, and the character of the text that it completes.
unfoldable pub read : Reading → ℕ → Reading × Option ℕ
read prefix c = if c == b'L' then (opening, none) else (broken, none)
read opening c = if c == b'"' then (inside, none) else (broken, none)
read inside c =
    if c == b'"'
    then (closed, none)
    else if c == b'\\'
    then (backslash, none)
    else if ltb c 32
    then (broken, none)
    else (inside, some c)
read backslash c =
    if (c == b'\\') || (c == b'"')
    then (inside, some c)
    else if c == b'n'
    then (inside, some 10)
    else if c == b'r'
    then (inside, some 13)
    else if c == b't'
    then (inside, some 9)
    else if c == b'u'
    then (digits 3 0, none)
    else if c == b'U'
    then (digits 7 0, none)
    else (broken, none)
read (digits n v) c = add_digit n v (hex_value c)
read closed c = (broken, none)
read broken c = (broken, none)

abbrev pub emit : Option ℕ → Option Text → Option Text
emit none t = t
emit (some c) none = none
emit (some c) (some t) = some (c ∷ t)

abbrev is_closed : Reading → Bool
is_closed closed = true
is_closed prefix = false
is_closed opening = false
is_closed inside = false
is_closed backslash = false
is_closed broken = false
is_closed (digits n v) = false

abbrev pub decode_from : Reading → Text → Option Text
decode_from state [] = if is_closed state then some [] else none
decode_from state (c ∷ s) = let (state', out) = read state c in emit out (decode_from state' s)

abbrev pub decode_literal : Text → Option Text
decode_literal = decode_from prefix

hex_value-hex_digit : (d : ℕ) → d < 16 → hex_value (hex_digit d) ≡ some d
unfolding hex_value hex_digit
hex_value-hex_digit d h = elim (Bool-cases (ltb d 10)) [
  | inl y ↦ rw y (ground (arith, y, h))
  | inr n ↦ rw n (ground (arith, n, h))
]

add_digit_more : (n v x : ℕ) → v ≡ x / 16 → add_digit (suc n) v (some (x % 16)) ≡ (digits n x, none)
unfolding add_digit
add_digit_more n v x h = let e : v * 16 + x % 16 ≡ x = omega (arith, h) in rw e refl

add_digit_last :
    (v x : ℕ)
    → v ≡ x / 16
    → is_scalar x ≡ true
    → add_digit zero v (some (x % 16)) ≡ (inside, some x)
unfolding add_digit
add_digit_last v x h k = let e : v * 16 + x % 16 ≡ x = omega (arith, h) in rw e (rw k refl)

pub decode_step :
    (state state' : Reading) (out : Option ℕ) (c : ℕ) (t : Text)
    → read state c ≡ (state', out)
    → decode_from state (c ∷ t) ≡ emit out (decode_from state' t)
decode_step state state' out c t h = ap (λ (r : Reading × Option ℕ). emit r.1 (decode_from r.0 t)) h

module _ (n : ℕ) (t : Text) (h : is_scalar n ≡ true) where
  decode-hex_digits :
      (w : ℕ)
      → decode_from (digits w (shift (suc w) n)) (hex_digits (suc w) n ++ t)
        ≡ emit (some n) (decode_from inside t)
  unfolding read
  decode-hex_digits zero =
      decode_step (digits zero (n / 16)) inside (some n) (hex_digit (n % 16)) t (
        ap (add_digit zero (n / 16)) (hex_value-hex_digit (n % 16) (omega arith))
        ∙ add_digit_last (n / 16) n refl h)
  decode-hex_digits (suc w) =
      let x = shift (suc w) n in
      decode_step (digits (suc w) (x / 16)) (digits w x) none (hex_digit (x % 16))
        (hex_digits (suc w) n ++ t)
        (ap (add_digit (suc w) (x / 16)) (hex_value-hex_digit (x % 16) (omega arith))
          ∙ add_digit_more w (x / 16) x refl)
      ∙ decode-hex_digits w

  pub decode_u :
      n ≤ 65535
      → decode_from inside (escaped b'u' ++ hex_digits 4 n ++ t)
        ≡ emit (some n) (decode_from inside t)
  unfolding read
  decode_u b =
      let z : shift 4 n ≡ 0 = omega (arith, b) in
      ap (λ v. decode_from (digits 3 v) (hex_digits 4 n ++ t)) (sym z) ∙ decode-hex_digits 3

  pub decode_big :
      decode_from inside (escaped b'U' ++ hex_digits 8 n ++ t)
      ≡ emit (some n) (decode_from inside t)
  unfolding read is_scalar
  decode_big =
      let z : shift 8 n ≡ 0 = ground (arith, h) in
      ap (λ v. decode_from (digits 7 v) (hex_digits 8 n ++ t)) (sym z) ∙ decode-hex_digits 7
