-- ===== src/Config/Valid/Functions.antt =====
-- The two passes over the functions accept exactly the functions whose types, names and modes fit
-- (internal/config/config.go).
use xll_gen.Prelude.{
  ◌≡◌, ◌≢◌, ◌↔◌, refl, Bool, true, false, not, ◌&&◌, ◌||◌, List, [], ◌∷◌, Option, none, some, map,
  if◌then◌else◌, ◌==◌, nat_eq, text_eq, ==→≡, mem, All, Text, codes, Unicode, subst, sym, arith, ℤ,
  ◌∙◌, ap,
}
use xll_gen.Config.{Arg, Function}
use xll_gen.Config.Words.{valid_arg_types, valid_return_types, rtd_composite_return_types}
use xll_gen.Config.Names.{
  Reason, ◌>>◌, fail_if, is_listed, validate_identifier, check_excel_name_collision,
}
use xll_gen.Config.Functions.{
  FunctionFault, rtd_composite_return, unsupported_return, range_return, once_range_return,
  argument_underscore, duplicate_argument, duplicate_name, invalid_mode, once_without_rtd,
  memoize_mode, memoize_ttl_mode, memoize_twice, memoize_ttl_not_positive, placeholder_mode,
  caller_mode, macro_mode, bad_shortcut, timeout_mode, timeout_unparsed, is, at_argument, at_name,
  at_function, check_arg, check_args, check_return, validate_function_returns, is_mode, is_positive,
  is_parsed, is_letter, check_ttl, check_memoize_ttl, check_timeout, check_mode,
  validate_function_modes,
}
use xll_gen.Config.Iff.{
  ◌&◌, Passes, ↔-trans, both, first-Passes, fail_if-Passes, needs-Passes, excludes-Passes,
  implies-Passes, if_set-Passes, set_needs-Passes,
}
use xll_gen.Config.Valid.{IsArg, is_rtd, is_once, HasTypes, HasTtl, HasMode}
use xll_gen.Config.Valid.Names.{validate_identifier-IsIdentifier, check_excel_name_collision-IsFree}
use xll_gen.Config.Valid.Distinct.{AreNew, AreNew-AllDistinct, zip_iff}

id_iff : {A : Type 0} → A ↔ A
id_iff = (λ a. a, λ a. a)

at_argument-Passes : (name : Text) (e : Option Reason) → Passes (at_argument name e) ↔ Passes e
at_argument-Passes name none = (λ h. refl, λ h. refl)
at_argument-Passes name (some r) = (λ h. cc, λ h. cc)

at_name-Passes : (e : Option Reason) → Passes (at_name e) ↔ Passes e
at_name-Passes none = (λ h. refl, λ h. refl)
at_name-Passes (some r) = (λ h. cc, λ h. cc)

at_function-Passes :
    (name : Text) (e : Option FunctionFault) → Passes (at_function name e) ↔ Passes e
at_function-Passes name none = (λ h. refl, λ h. refl)
at_function-Passes name (some r) = (λ h. cc, λ h. cc)

-- What a loop asks of its names stands apart from the rest.
last_iff : {A B C N : Type 0} → (A & (B & (N & C))) ↔ ((A & (B & C)) & N)
last_iff = (λ (a, (b, (n, c))). ((a, (b, c)), n), λ ((a, (b, c)), n). (a, (b, (n, c))))

check_arg-Passes :
    (seen : List Text) (a : Arg) → Passes (check_arg seen a) ↔ (IsArg a & (mem a.name seen ≡ false))
unfolding check_arg
check_arg-Passes seen a =
    ↔-trans
      (first-Passes _ _
        (↔-trans (at_argument-Passes a.name (validate_identifier a.name))
          (validate_identifier-IsIdentifier a.name))
        (first-Passes _ _ (fail_if-Passes (mem b'_' a.name) (argument_underscore a.name)) (
          first-Passes _ _ (fail_if-Passes (mem a.name seen) (duplicate_argument a.name))
            (needs-Passes (is_listed a.type valid_arg_types) _))))
      last_iff

check_args-Passes :
    (seen : List Text) (args : List Arg)
    → Passes (check_args seen args) ↔ (All IsArg args & AreNew seen (map (λ a. a.name) args))
unfolding check_args
check_args-Passes seen [] = (λ h. (tt, tt), λ h. refl)
check_args-Passes seen (a ∷ args) =
    ↔-trans (first-Passes _ _ (check_arg-Passes seen a) (check_args-Passes (a.name ∷ seen) args))
      zip_iff

range_unlisted : (s : Text) → is s "range" ≡ true → is_listed s valid_return_types ≡ false
unfolding valid_return_types
range_unlisted s h =
    subst (λ t. is_listed t valid_return_types ≡ false) (sym (==→≡ s (codes "range") h)) refl

return-Passes :
    (rtd once valid composite range : Bool)
    → (range ≡ true → valid ≡ false)
    → Passes (
        if rtd
        then fail_if composite rtd_composite_return >> fail_if (not valid) unsupported_return
        else if once
        then fail_if range once_range_return >> fail_if (not valid) unsupported_return
        else if valid
        then none
        else fail_if range range_return >> some unsupported_return)
      ↔ ((valid ≡ true) & (rtd ≡ true → composite ≡ false))
unfolding ◌>>◌ fail_if
return-Passes rtd once valid composite range h =
    (λ e. (ground (arith, h), λ q. ground arith), λ (v, c). ground (arith, h, c))

module _ (u : Unicode) where
  check_return-Passes :
      (fn : Function)
      → Passes (check_return u fn) ↔ (
          (is_listed fn.return valid_return_types ≡ true)
          & (is_rtd u fn ≡ true → is_listed fn.return rtd_composite_return_types ≡ false))
  unfolding check_return
  check_return-Passes fn =
      return-Passes (is_rtd u fn) (is_once u fn) (is_listed fn.return valid_return_types)
        (is_listed fn.return rtd_composite_return_types) (is fn.return "range")
        (range_unlisted fn.return)

  pub validate_function_returns-HasTypes :
      (fns : List Function) → Passes (validate_function_returns u fns) ↔ All (HasTypes u) fns
  unfolding validate_function_returns
  validate_function_returns-HasTypes [] = (λ h. tt, λ h. refl)
  validate_function_returns-HasTypes (fn ∷ fns) =
      first-Passes _ _
        (↔-trans (at_function-Passes fn.name _) (
          ↔-trans
            (first-Passes _ _ (check_return-Passes fn) (
              ↔-trans (check_args-Passes [] fn.args)
                (both id_iff (AreNew-AllDistinct (map (λ a. a.name) fn.args)))))
            (λ ((a, b), (c, d)). (a, (b, (c, d))), λ (a, (b, (c, d))). ((a, b), (c, d)))))
        (validate_function_returns-HasTypes fns)

  module _ (parse_duration : Text → Option ℤ) where
    parsed-Passes :
        (o : Option ℤ) → Passes (check_ttl o) ↔ ((d : ℤ) × (o ≡ some d) × (is_positive d ≡ true))
    parsed-Passes none = (λ h. cc, λ (d, e, p). cc)
    parsed-Passes (some d) =
        let n = needs-Passes (is_positive d) memoize_ttl_not_positive in
        (λ h. (d, refl, n.0 h), λ (c, e, p). let q : d ≡ c = cc in n.1 (ap is_positive q ∙ p))

    check_memoize_ttl-HasTtl :
        (fn : Function)
        → Passes (check_memoize_ttl u parse_duration (is_once u fn) fn)
          ↔ (fn.memoize_ttl ≢ [] → HasTtl u parse_duration fn)
    unfolding check_memoize_ttl
    check_memoize_ttl-HasTtl fn = if_set-Passes fn.memoize_ttl _ (
        first-Passes _ _ (needs-Passes (is_once u fn) memoize_ttl_mode) (
          first-Passes _ _ (fail_if-Passes fn.memoize memoize_twice)
            (parsed-Passes (parse_duration fn.memoize_ttl))))

    placeholder-Passes :
        (s : Text) (once rtd : Bool)
        → Passes (fail_if (not (s == []) && not once && not rtd) placeholder_mode)
          ↔ (s ≢ [] → (once || rtd) ≡ true)
    unfolding fail_if
    placeholder-Passes [] once rtd = (λ h q. absurd (q refl), λ h. refl)
    placeholder-Passes (c ∷ s) once rtd =
        (λ h q. ground arith, λ h. let k = h (λ p. cc) in ground (arith, k))

    check_mode-HasMode :
        (rtd_enabled : Bool) (seen : List Text) (fn : Function)
        → Passes (check_mode u parse_duration rtd_enabled seen fn)
          ↔ (HasMode u parse_duration rtd_enabled fn & (mem fn.name seen ≡ false))
    unfolding check_mode check_timeout
    check_mode-HasMode rtd_enabled seen fn =
        ↔-trans
          (first-Passes _ _
            (↔-trans (at_name-Passes (validate_identifier fn.name))
              (validate_identifier-IsIdentifier fn.name))
            (first-Passes _ _ (fail_if-Passes (mem fn.name seen) duplicate_name) (
              first-Passes _ _
                (↔-trans (at_name-Passes (check_excel_name_collision u fn.name))
                  (check_excel_name_collision-IsFree u fn.name))
                (first-Passes _ _ (set_needs-Passes fn.mode (is_mode u fn.mode) invalid_mode) (
                  first-Passes _ _ (implies-Passes (is_once u fn) rtd_enabled once_without_rtd) (
                    first-Passes _ _ (implies-Passes fn.memoize (is_once u fn) memoize_mode) (
                      first-Passes _ _ (check_memoize_ttl-HasTtl fn) (
                        first-Passes _ _
                          (placeholder-Passes fn.loading_placeholder (is_once u fn) (is_rtd u fn))
                          (first-Passes _ _ (excludes-Passes fn.caller (is_once u fn) caller_mode) (
                            first-Passes _ _ (excludes-Passes fn.macro (is_once u fn) macro_mode) (
                              first-Passes _ _
                                (set_needs-Passes fn.shortcut (is_letter fn.shortcut) bad_shortcut)
                                (if_set-Passes fn.timeout _ (
                                  first-Passes _ _
                                    (fail_if-Passes (is_rtd u fn || is_once u fn) timeout_mode)
                                    (needs-Passes (is_parsed (parse_duration fn.timeout))
                                      timeout_unparsed))))))))))))))
          (λ (a, (n, b)). ((a, b), n), λ ((a, b), n). (a, (n, b)))

    pub validate_function_modes-HasMode :
        (rtd_enabled : Bool) (seen : List Text) (fns : List Function)
        → Passes (validate_function_modes u parse_duration rtd_enabled seen fns)
          ↔ (All (HasMode u parse_duration rtd_enabled) fns & AreNew seen (map (λ fn. fn.name) fns))
    unfolding validate_function_modes
    validate_function_modes-HasMode rtd_enabled seen [] = (λ h. (tt, tt), λ h. refl)
    validate_function_modes-HasMode rtd_enabled seen (fn ∷ fns) =
        ↔-trans
          (first-Passes _ _
            (↔-trans (at_function-Passes fn.name _) (check_mode-HasMode rtd_enabled seen fn))
            (validate_function_modes-HasMode rtd_enabled (fn.name ∷ seen) fns))
          zip_iff
