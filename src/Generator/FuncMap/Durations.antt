-- ===== src/Generator/FuncMap/Durations.antt =====
-- The lifetimes that the templates emit (internal/generator/funcmap.go).
use xll_gen.Prelude.{
  ℕ, zero, suc, ◌<◌, ◌/◌, ◌≡◌, ◌≢◌, ◌↔◌, refl, sym, subst, ap, ◌∙◌, true, [], Option, some,
  get_elem?, get_elem?-All, nat_eq, text_eq, Text, codes, Unicode, ℤ, pos, negsuc, arith, itoa,
  read_decimal, itoa-read_decimal,
}
use xll_gen.Config.{Config, Function}
use xll_gen.Config.Functions.{is_positive}
use xll_gen.Config.Validate.{validate}
use xll_gen.Config.Iff.{Passes}
use xll_gen.Config.Valid
use xll_gen.Config.Valid.Whole.{validate-IsConfig}
use xll_gen.Generator.FuncMap.{duration_millis, positive_millis}

-- `s` is the decimal numeral of the whole milliseconds, and "0" only below one.
abbrev pub IsMillis : Text → ℕ → Type 0
IsMillis s n = (read_decimal 0 s ≡ n / 1000000) × ((s ≡ codes "0") ↔ (n < 1000000))

itoa_zero : (n : ℕ) → (itoa n ≡ codes "0") ↔ (n ≡ 0)
unfolding itoa
itoa_zero n = (λ h. sym (itoa-read_decimal n) ∙ ap (read_decimal 0) h, λ h. ap itoa h)

positive_millis-IsMillis :
    (d : ℤ) → is_positive d ≡ true → (n : ℕ) × (d ≡ pos n) × IsMillis (positive_millis (some d)) n
positive_millis-IsMillis (pos zero) h = absurd (cc)
positive_millis-IsMillis (pos (suc n)) h =
    let (f, g) = itoa_zero (suc n / 1000000) in
    (
      suc n,
      refl,
      (itoa-read_decimal (suc n / 1000000), (λ k. omega (arith, f k), λ k. g (omega (arith, k)))),
    )
positive_millis-IsMillis (negsuc n) h = absurd (cc)

-- The lifetime emitted for a function of an accepted configuration that sets memoize_ttl is the number of
-- whole milliseconds of the parsed duration, in decimal; it is "0" exactly for a duration below one
-- millisecond.
pub validate-duration_millis :
    (u : Unicode) (parse_duration : Text → Option ℤ) (c : Config)
    → Passes (validate u parse_duration c)
    → (i : ℕ) (fn : Function) → get_elem? c.functions i ≡ some fn
    → fn.memoize_ttl ≢ []
    → (n : ℕ) × (parse_duration fn.memoize_ttl ≡ some (pos n))
      × IsMillis (duration_millis parse_duration fn.memoize_ttl) n
unfolding duration_millis
validate-duration_millis u parse_duration c v i fn h set =
    let (name, (pkg, (build, (evts, (types, (log, ((modes, fns), rest))))))) =
      (validate-IsConfig u parse_duration c).0 v in
    let (a, (b, (m, (en, (me, (ttl, others)))))) =
      get_elem?-All (Valid.HasMode u parse_duration c.rtd.enabled) c.functions i fn modes h in
    let (once, (fresh, (d, e, p))) = ttl set in
    let (n, q, k) = positive_millis-IsMillis d p in
    (n, e ∙ ap some q, subst (λ o. IsMillis (positive_millis o) n) (sym e) k)
