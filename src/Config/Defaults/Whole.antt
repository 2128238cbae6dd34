-- ===== src/Config/Defaults/Whole.antt =====
-- ApplyDefaults keeps an accepted configuration accepted (internal/config/config.go).
use xll_gen.Prelude.{
  map-All, ◌≡◌, Bool, true, List, Option, map, All, nat_eq, text_eq, Text, Unicode, ℤ,
}
use xll_gen.Config.{Config, Function}
use xll_gen.Config.Functions.{is}
use xll_gen.Config.Defaults.{function_defaults, apply_defaults}
use xll_gen.Config.Defaults.Modes.{is_exact, function_defaults-Normal, FoldsApart}
use xll_gen.Config.Valid
use xll_gen.Config.Valid.Whole.{validate-IsConfig}
use xll_gen.Config.Validate.{validate}
use xll_gen.Config.Iff.{Passes}

module _ (u : Unicode) (apart : FoldsApart u) where
  functions-modes :
      (parse_duration : Text → Option ℤ) (rtd_enabled : Bool) (fns : List Function)
      → All (Valid.HasMode u parse_duration rtd_enabled) fns
      → All
          (λ fn. (is_exact fn.mode ≡ true) × (fn.is_async ≡ is fn.mode "async"))
          (map (function_defaults u) fns)
  functions-modes parse_duration rtd_enabled fns h =
      map-All _ _ (function_defaults u) fns
        (λ fn k.
          let (n, (f, (m, rest))) = k in
          let (word, flag, rtd, once) = function_defaults-Normal u apart fn m in (word, flag))
        h

  -- After ApplyDefaults every function of an accepted configuration has one of the four modes, spelled in
  -- lower case, and is asynchronous by the legacy flag exactly when its mode is "async".
  pub apply_defaults-is_exact :
      (uuid_dns : Text → Text) (parse_duration : Text → Option ℤ) (c : Config)
      → Passes (validate u parse_duration c)
      → All
          (λ fn. (is_exact fn.mode ≡ true) × (fn.is_async ≡ is fn.mode "async"))
          ((apply_defaults uuid_dns u c).functions)
  unfolding apply_defaults
  apply_defaults-is_exact uuid_dns parse_duration c v =
      let (name, (pkg, (build, (evts, (types, (log, ((modes, fns), rest))))))) =
        (validate-IsConfig u parse_duration c).0 v in
      functions-modes parse_duration c.rtd.enabled c.functions modes
