-- ===== src/Doctor/Printed.antt =====
-- The versions that tools print are read back (cmd/doctor.go).
use xll_gen.Prelude.{
  ℕ, ◌≡◌, Bool, true, false, List, [], ◌∷◌, ◌++◌, All, nat_eq, text_eq, is_digit, Text, itoa,
}

-- The numerals with dots between them.
abbrev pub dotted : ℕ → List ℕ → Text
dotted n [] = itoa n
dotted n (m ∷ ns) = itoa n ++ (b'.' ∷ dotted m ns)

abbrev pub starts : (ℕ → Bool) → Text → Bool
starts test [] = false
starts test (c ∷ s) = test c

abbrev pub IsDigits : Text → Type 0
IsDigits = All (λ c. is_digit c ≡ true)
