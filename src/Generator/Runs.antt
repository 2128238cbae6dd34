-- ===== src/Generator/Runs.antt =====
-- Concrete runs of the template functions of internal/generator.
use xll_gen.Prelude.{ℕ, ◌≡◌, refl, true, List, [], ◌∷◌, ◌++◌, some, All, codes, pos}
use xll_gen.Config.Runs.{ascii, durations, quote, demo, demo-Passes}
use xll_gen.Generator.Literals.{cpp_wide_literal, escape_cpp_string}
use xll_gen.Generator.Literals.Decode.{is_scalar, decode_literal}
use xll_gen.Generator.Literals.RoundTrip.{
  IsPlainAscii, cpp_wide_literal-decode_literal, escape_cpp_string-decode_literal,
}
use xll_gen.Generator.Types.Codes.{IsReturnType, IsArgType, validate-IsReturnType}
use xll_gen.Generator.FuncMap.{has_event, get_event_handler, duration_millis}
use xll_gen.Generator.FuncMap.Events.{HasCodes, validate-get_event_handler}
use xll_gen.Generator.FuncMap.Durations.{IsMillis, validate-duration_millis}

-- A quote, a backslash, a line feed, an euro sign and a rune beyond 16 bits.
abbrev sample : List ℕ
sample = 34 ∷ 92 ∷ 10 ∷ 8364 ∷ 128512 ∷ []

sample_scalar : All (λ r. is_scalar r ≡ true) sample
unfolding is_scalar
sample_scalar = (refl, (refl, (refl, (refl, (refl, tt)))))

cpp_wide_literal-decode_literal_example :
    (decode_literal (cpp_wide_literal sample) ≡ some sample)
    × IsPlainAscii (cpp_wide_literal sample)
cpp_wide_literal-decode_literal_example = cpp_wide_literal-decode_literal sample sample_scalar

escape_cpp_string-decode_literal_example :
    decode_literal (codes "L\"" ++ escape_cpp_string sample ++ codes "\"") ≡ some sample
escape_cpp_string-decode_literal_example = escape_cpp_string-decode_literal sample sample_scalar

validate-IsReturnType_example :
    All (λ fn. IsReturnType fn.return × All (λ a. IsArgType a.type) fn.args) demo.functions
validate-IsReturnType_example = validate-IsReturnType ascii durations demo demo-Passes

validate-get_event_handler_example :
    HasCodes (codes "CalculationEnded")
    × (has_event (codes "CalculationEnded") demo.events ≡ true)
    × (get_event_handler (codes "CalculationEnded") demo.events (codes "Other") ≡ [])
validate-get_event_handler_example =
    validate-get_event_handler ascii durations demo (codes "Other") demo-Passes 0
      (record { type = codes "CalculationEnded"; handler = [] }) refl

validate-duration_millis_example :
    (n : ℕ) × (durations (codes "2s") ≡ some (pos n))
    × IsMillis (duration_millis durations (codes "2s")) n
validate-duration_millis_example =
    validate-duration_millis ascii durations demo demo-Passes 0 quote refl (λ q. cc)
