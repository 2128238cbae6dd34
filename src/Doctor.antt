-- ===== src/Doctor.antt =====
-- The version checks of cmd/doctor.go. A number of a version fits an int, which has 64 bits.
pub mod Order
pub mod Printed
mod Runs
use Prim.Native.String.{String}
use xll_gen.Prelude.{
  ℕ, ◌^◌, Bool, true, false, not, ◌&&◌, ◌||◌, List, [], ◌∷◌, Option, none, some, ltb, if◌then◌else◌,
  ◌==◌, nat_eq, text_eq, is_digit, Text, read_decimal, ℤ, pos, negsuc, is_negative,
}

-- From the first digit on.
abbrev pub from_digit : Text → Text
from_digit [] = []
from_digit (c ∷ s) = if is_digit c then c ∷ s else from_digit s

abbrev pub is_version_char : ℕ → Bool
is_version_char c = is_digit c || (c == b'.')

-- Up to the first character that is neither a digit nor a dot.
abbrev pub version_part : Text → Text
version_part [] = []
version_part (c ∷ s) = let rest = version_part s in if is_version_char c then c ∷ rest else []

abbrev pub cons_head : ℕ → List Text → List Text
cons_head c [] = (c ∷ []) ∷ []
cons_head c (p ∷ ps) = (c ∷ p) ∷ ps

-- strings.Split at the dots.
abbrev pub split_dots : Text → List Text
split_dots [] = [] ∷ []
split_dots (c ∷ s) = let rest = split_dots s in if c == b'.' then [] ∷ rest else cons_head c rest

-- strconv.Atoi of a text of digits.
unfoldable pub atoi : Text → Option ℕ
atoi p = let n = read_decimal 0 p in if ltb n (2 ^ 63) then some n else none

abbrev pub cons_number : Option ℕ → Option (List ℕ) → Option (List ℕ)
cons_number none ns = none
cons_number (some n) none = none
cons_number (some n) (some ns) = some (n ∷ ns)

abbrev pub numbers : List Text → Option (List ℕ)
numbers [] = some []
numbers (p ∷ ps) = let rest = numbers ps in if p == [] then rest else cons_number (atoi p) rest

-- No numbers are no version.
abbrev pub non_empty : Option (List ℕ) → Option (List ℕ)
non_empty none = none
non_empty (some []) = none
non_empty (some (n ∷ ns)) = some (n ∷ ns)

unfoldable pub parse_version : Text → Option (List ℕ)
parse_version s =
    let t = from_digit s in
    if t == [] then none else non_empty (numbers (split_dots (version_part t)))

-- One round of the loop.
abbrev pub compare_next : ℕ → ℕ → ℤ → ℤ
compare_next x y rest = if ltb x y then negsuc 0 else if ltb y x then pos 1 else rest

unfoldable pub compare_versions : List ℕ → List ℕ → ℤ
compare_versions [] [] = pos 0
compare_versions [] (y ∷ b) = compare_next 0 y (compare_versions [] b)
compare_versions (x ∷ a) [] = compare_next x 0 (compare_versions a [])
compare_versions (x ∷ a) (y ∷ b) = compare_next x y (compare_versions a b)

abbrev pub at_least : Option (List ℕ) → Option (List ℕ) → Bool × Bool
at_least none m = (false, false)
at_least (some g) none = (false, false)
at_least (some g) (some m) = (not (is_negative (compare_versions g m)), true)

-- Whether `got >= min`, and whether both are versions.
unfoldable pub version_at_least : Text → Text → Bool × Bool
unfolding parse_version compare_versions
version_at_least got min = at_least (parse_version got) (parse_version min)
