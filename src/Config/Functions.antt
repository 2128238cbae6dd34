-- ===== src/Config/Functions.antt =====
-- The two passes over the functions of internal/config/config.go: returns and arguments, then names and
-- modes. `parse_duration` is time.ParseDuration, in nanoseconds.
use Prim.Native.String.{String}
use xll_gen.Prelude.{
  ℕ, Bool, true, false, not, ◌&&◌, ◌||◌, List, [], ◌∷◌, Option, none, some, if◌then◌else◌, ◌==◌,
  nat_eq, text_eq, mem, Text, codes, Unicode, to_lower, equal_fold, is_lower, is_upper, ℤ, pos,
  negsuc, ltb,
}
use xll_gen.Config.{Arg, Function}
use xll_gen.Config.Words.{valid_arg_types, valid_return_types, rtd_composite_return_types}
use xll_gen.Config.Names.{
  Reason, ◌>>◌, fail_if, is_listed, validate_identifier, check_excel_name_collision,
}

-- Why a function is refused. The messages on an argument name it.
pub data FunctionFault : Type 0 where
  rtd_composite_return unsupported_return range_return once_range_return : FunctionFault
  argument_name : Text → Reason → FunctionFault
  argument_underscore duplicate_argument optional_argument : Text → FunctionFault
  unsupported_argument : Text → FunctionFault
  name_refused : Reason → FunctionFault
  duplicate_name invalid_mode once_without_rtd memoize_mode : FunctionFault
  memoize_ttl_mode memoize_twice memoize_ttl_unparsed memoize_ttl_not_positive : FunctionFault
  placeholder_mode caller_mode macro_mode bad_shortcut timeout_mode : FunctionFault
  timeout_unparsed : FunctionFault

-- `validXTypes[s]`.
abbrev pub is_type : Text → List String → Bool
is_type = is_listed

abbrev pub is : Text → String → Bool
is s word = s == codes word

abbrev pub ends_with : ℕ → Text → Bool
ends_with d [] = false
ends_with d (c ∷ s) = if s == [] then c == d else ends_with d s

abbrev pub at_argument : Text → Option Reason → Option FunctionFault
at_argument name none = none
at_argument name (some r) = some (argument_name name r)

unfoldable pub check_arg : List Text → Arg → Option FunctionFault
check_arg seen arg =
    at_argument arg.name (validate_identifier arg.name)
    >> fail_if (mem b'_' arg.name) (argument_underscore arg.name)
    >> fail_if (mem arg.name seen) (duplicate_argument arg.name)
    >> fail_if (not (is_type arg.type valid_arg_types)) (
        if ends_with b'?' arg.type
        then optional_argument arg.name
        else unsupported_argument arg.name)

unfoldable pub check_args : List Text → List Arg → Option FunctionFault
unfolding check_arg
check_args seen [] = none
check_args seen (arg ∷ args) = check_arg seen arg >> check_args (arg.name ∷ seen) args

abbrev pub at_function : Text → Option FunctionFault → Option (Text × FunctionFault)
at_function name none = none
at_function name (some f) = some (name, f)

module _ (u : Unicode) where
  unfoldable pub check_return : Function → Option FunctionFault
  check_return fn =
      if equal_fold u fn.mode (codes "rtd")
      then fail_if (is_type fn.return rtd_composite_return_types) rtd_composite_return
        >> fail_if (not (is_type fn.return valid_return_types)) unsupported_return
      else if equal_fold u fn.mode (codes "rtd-once")
      then fail_if (is fn.return "range") once_range_return
        >> fail_if (not (is_type fn.return valid_return_types)) unsupported_return
      else if is_type fn.return valid_return_types
      then none
      else fail_if (is fn.return "range") range_return >> some unsupported_return

  -- The name of the first refused function, and why.
  unfoldable pub validate_function_returns : List Function → Option (Text × FunctionFault)
  unfolding check_return
  validate_function_returns [] = none
  validate_function_returns (fn ∷ fns) =
      at_function fn.name (check_return fn >> check_args [] fn.args)
      >> validate_function_returns fns

-- `switch strings.ToLower(fn.Mode)`.
abbrev pub is_mode : Unicode → Text → Bool
is_mode u mode =
    let m = to_lower u mode in is m "sync" || is m "async" || is m "rtd" || is m "rtd-once"

abbrev pub is_positive : ℤ → Bool
is_positive (pos n) = ltb 0 n
is_positive (negsuc n) = false

-- `d` is what parseDuration answers.
abbrev pub check_ttl : Option ℤ → Option FunctionFault
check_ttl none = some memoize_ttl_unparsed
check_ttl (some d) = fail_if (not (is_positive d)) memoize_ttl_not_positive

abbrev pub is_parsed : Option ℤ → Bool
is_parsed none = false
is_parsed (some d) = true

-- A single ASCII letter.
abbrev pub is_letter : Text → Bool
is_letter [] = false
is_letter (c ∷ s) = (is_lower c || is_upper c) && (s == [])

abbrev pub at_name : Option Reason → Option FunctionFault
at_name none = none
at_name (some r) = some (name_refused r)

module _ (u : Unicode) (parse_duration : Text → Option ℤ) where
  unfoldable pub check_memoize_ttl : Bool → Function → Option FunctionFault
  check_memoize_ttl once fn =
      if fn.memoize_ttl == []
      then none
      else fail_if (not once) memoize_ttl_mode
        >> fail_if fn.memoize memoize_twice
        >> check_ttl (parse_duration fn.memoize_ttl)

  unfoldable pub check_timeout : Bool → Bool → Function → Option FunctionFault
  check_timeout rtd once fn =
      if fn.timeout == []
      then none
      else fail_if (rtd || once) timeout_mode
        >> fail_if (not (is_parsed (parse_duration fn.timeout))) timeout_unparsed

  -- One round of the loop; `rtd_enabled` is config.Rtd.Enabled.
  unfoldable pub check_mode : Bool → List Text → Function → Option FunctionFault
  unfolding check_memoize_ttl check_timeout
  check_mode rtd_enabled seen fn =
      let rtd = equal_fold u fn.mode (codes "rtd") in
      let once = equal_fold u fn.mode (codes "rtd-once") in
      at_name (validate_identifier fn.name)
      >> fail_if (mem fn.name seen) duplicate_name
      >> at_name (check_excel_name_collision u fn.name)
      >> fail_if (not (fn.mode == []) && not (is_mode u fn.mode)) invalid_mode
      >> fail_if (once && not rtd_enabled) once_without_rtd
      >> fail_if (fn.memoize && not once) memoize_mode
      >> check_memoize_ttl once fn
      >> fail_if (not (fn.loading_placeholder == []) && not once && not rtd) placeholder_mode
      >> fail_if (fn.caller && once) caller_mode
      >> fail_if (fn.macro && once) macro_mode
      >> fail_if (not (fn.shortcut == []) && not (is_letter fn.shortcut)) bad_shortcut
      >> check_timeout rtd once fn

  unfoldable pub validate_function_modes :
      Bool → List Text → List Function → Option (Text × FunctionFault)
  unfolding check_mode
  validate_function_modes rtd_enabled seen [] = none
  validate_function_modes rtd_enabled seen (fn ∷ fns) =
      at_function fn.name (check_mode rtd_enabled seen fn)
      >> validate_function_modes rtd_enabled (fn.name ∷ seen) fns
