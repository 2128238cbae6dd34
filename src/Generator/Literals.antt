-- ===== src/Generator/Literals.antt =====
-- The C++ string literals of internal/generator/funcmap.go, and what a C++ compiler reads in them.
pub mod Decode
pub mod RoundTrip
use xll_gen.Prelude.{
  ℕ, zero, suc, ◌+◌, ◌/◌, ◌%◌, Bool, true, false, ◌&&◌, ◌||◌, List, [], ◌∷◌, ◌++◌, if◌then◌else◌,
  ◌==◌, nat_eq, ltb, Text, codes,
}

-- An upper-case hex digit.
unfoldable pub hex_digit : ℕ → ℕ
hex_digit d = if ltb d 10 then 48 + d else 55 + d

-- `n` without its last `k` hex digits.
abbrev pub shift : ℕ → ℕ → ℕ
shift zero n = n
shift (suc k) n = shift k n / 16

-- The last `w` hex digits. For a number that has no more, that is what `%0wX` prints.
abbrev pub hex_digits : ℕ → ℕ → Text
hex_digits zero n = []
hex_digits (suc w) n = hex_digit (shift w n % 16) ∷ hex_digits w n

abbrev pub escaped : ℕ → Text
escaped c = b'\\' ∷ c ∷ []

-- The cases that both functions share; `other` is the default case.
unfoldable pub c_escape : ℕ → Text → Text
c_escape r other =
    if r == b'\\'
    then escaped b'\\'
    else if r == b'"'
    then escaped b'"'
    else if r == 10
    then escaped b'n'
    else if r == 13
    then escaped b'r'
    else if r == 9
    then escaped b't'
    else other

-- One rune of cppWideLiteral.
unfoldable pub wide_rune : ℕ → Text
wide_rune r = c_escape r (
    if ltb r 32 || ltb 126 r
    then if ltb 65535 r then escaped b'U' ++ hex_digits 8 r else escaped b'u' ++ hex_digits 4 r
    else r ∷ [])

-- The loop over the runes, and the closing quote.
abbrev pub wide_runes : Text → Text
wide_runes [] = b'"' ∷ []
wide_runes (r ∷ s) = wide_rune r ++ wide_runes s

abbrev pub cpp_wide_literal : Text → Text
cpp_wide_literal s = b'L' ∷ b'"' ∷ wide_runes s

-- One rune of escapeCppString.
unfoldable pub escape_rune : ℕ → Text
escape_rune r = c_escape r (if ltb r 32 then escaped b'u' ++ hex_digits 4 r else r ∷ [])

abbrev pub escape_cpp_string : Text → Text
escape_cpp_string [] = []
escape_cpp_string (r ∷ s) = escape_rune r ++ escape_cpp_string s
