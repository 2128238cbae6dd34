-- ===== src/Generator/FuncMap.antt =====
-- The template functions of internal/generator/funcmap.go on functions, events, durations and
-- placeholders. `parse_duration` is time.ParseDuration, in nanoseconds.
pub mod Events
pub mod Durations
use Prim.Native.String.{String}
use xll_gen.Prelude.{
  ℕ, zero, suc, ◌/◌, Bool, true, false, ◌&&◌, ◌||◌, List, [], ◌∷◌, ◌++◌, Option, none, some,
  if◌then◌else◌, ◌==◌, nat_eq, text_eq, any, Text, codes, Unicode, itoa, ℤ, pos, negsuc,
}
use xll_gen.Config.{Function, Arg, Event, RtdConfig}
use xll_gen.Config.Functions.{is}
use xll_gen.Config.Defaults.{
  RtdPlaceholder, placeholder_getting_data, placeholder_na, placeholder_text,
  resolve_rtd_placeholder,
}
use xll_gen.MsgId.{msg_calculation_ended, msg_calculation_canceled}
use xll_gen.Generator.Literals.{cpp_wide_literal}

abbrev pub any_rtd_once_grid : List Function → Bool
any_rtd_once_grid = any (λ f. is f.mode "rtd-once" && (is f.return "grid" || is f.return "numgrid"))

abbrev pub any_date_type : List Function → Bool
any_date_type = any (λ f. is f.return "date" || any (λ a. is a.type "date") f.args)

abbrev pub any_rtd_once : List Function → Bool
any_rtd_once = any (λ f. is f.mode "rtd-once")

abbrev pub any_rtd : List Function → Bool
any_rtd = any (λ f. is f.mode "rtd")

abbrev pub has_event : Text → List Event → Bool
has_event type = any (λ e. e.type == type)

abbrev pub get_event_handler : Text → List Event → Text → Text
get_event_handler type [] default_handler = default_handler
get_event_handler type (e ∷ events) default_handler =
    let rest = get_event_handler type events default_handler in
    if e.type == type then e.handler else rest

unfoldable pub lookup_event_code : Text → Text
lookup_event_code t =
    if is t "CalculationEnded"
    then codes "xleventCalculationEnded"
    else if is t "CalculationCanceled"
    then codes "xleventCalculationCanceled"
    else codes "0"

unfoldable pub lookup_event_id : Text → Text
lookup_event_id t =
    if is t "CalculationEnded"
    then itoa msg_calculation_ended
    else if is t "CalculationCanceled"
    then itoa msg_calculation_canceled
    else codes "0"

-- Go divides towards zero.
abbrev from_negative : ℕ → ℤ
from_negative zero = pos zero
from_negative (suc n) = negsuc n

abbrev pub milliseconds : ℤ → ℤ
milliseconds (pos n) = pos (n / 1000000)
milliseconds (negsuc n) = from_negative (suc n / 1000000)

abbrev ms_or : ℤ → Option ℤ → ℤ
ms_or default_ms none = default_ms
ms_or default_ms (some d) = milliseconds d

abbrev ns_or : Option ℤ → ℤ
ns_or none = pos 0
ns_or (some d) = d

-- A duration that is not positive counts as none.
abbrev pub positive_millis : Option ℤ → Text
positive_millis none = codes "0"
positive_millis (some (negsuc n)) = codes "0"
positive_millis (some (pos zero)) = codes "0"
positive_millis (some (pos (suc n))) = itoa (suc n / 1000000)

module _ (parse_duration : Text → Option ℤ) where
  unfoldable pub parse_duration_to_ms : Text → ℤ → ℤ
  parse_duration_to_ms s default_ms =
      if s == [] then default_ms else ms_or default_ms (parse_duration s)

  unfoldable pub parse_duration_to_ns : Text → ℤ
  parse_duration_to_ns s = if s == [] then pos 0 else ns_or (parse_duration s)

  unfoldable pub duration_millis : Text → Text
  duration_millis s = positive_millis (parse_duration s)

abbrev pub placeholder_return : RtdPlaceholder → Text
placeholder_return placeholder_na = codes "return &g_xlErrNA;"
placeholder_return (placeholder_text t) =
    codes "return NewExcelString(" ++ cpp_wide_literal t ++ codes ");"
placeholder_return placeholder_getting_data = codes "return &g_xlErrGettingData;"

unfoldable pub rtd_placeholder_return : Unicode → Function → RtdConfig → Text
rtd_placeholder_return u fn rtd = placeholder_return (resolve_rtd_placeholder u fn rtd)

-- The kind and the text of an entry.
abbrev pub placeholder_kind : RtdPlaceholder → Text
placeholder_kind placeholder_na = codes "xll::RtdPlaceholderKind::NA"
placeholder_kind (placeholder_text t) = codes "xll::RtdPlaceholderKind::Text"
placeholder_kind placeholder_getting_data = codes "xll::RtdPlaceholderKind::GettingData"

abbrev pub placeholder_literal : RtdPlaceholder → Text
placeholder_literal placeholder_na = codes "L\"\""
placeholder_literal (placeholder_text t) = cpp_wide_literal t
placeholder_literal placeholder_getting_data = codes "L\"\""

unfoldable pub rtd_placeholder_entry : Unicode → Function → RtdConfig → Text
rtd_placeholder_entry u fn rtd =
    let ph = resolve_rtd_placeholder u fn rtd in
    codes "{L\""
    ++ fn.name
    ++ codes "\", {"
    ++ placeholder_kind ph
    ++ codes ", "
    ++ placeholder_literal ph
    ++ codes "}}"
