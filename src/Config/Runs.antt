-- ===== src/Config/Runs.antt =====
-- Concrete configurations and runs of the checks of internal/config/config.go.
use xll_gen.Prelude.{
  ◌≡◌, ◌↔◌, refl, true, false, [], ◌∷◌, Option, none, some, All, if◌then◌else◌, nat_eq, text_eq,
  Text, codes, Unicode, ℤ, pos, arith, rune_is_space, rune_to_lower, rune_to_upper, rune_folds,
}
use xll_gen.Config.{Config, Function, Command, RibbonButton}
use xll_gen.Config.Names.{
  ◌>>◌, fail_if, validate_identifier, validate_gen_go_package, reject_control_chars,
  validate_project_name, validate_prog_id, validate_clsid, check_excel_name_collision,
  classify_ribbon_image,
}
use xll_gen.Config.Functions.{
  is, check_arg, check_args, check_return, validate_function_returns, check_memoize_ttl,
  check_timeout, check_mode, validate_function_modes,
}
use xll_gen.Config.Checks.{
  validate_build, validate_events, validate_logging, validate_server_timeouts, validate_rtd,
  validate_server_chunk,
}
use xll_gen.Config.Commands.{
  check_shortcut, check_command, commands_loop, validate_commands, check_button, check_buttons,
  check_groups, validate_ribbon,
}
use xll_gen.Config.Words.{
  ribbon_image_file_exts, valid_arg_types, valid_return_types, valid_event_types,
  rtd_composite_return_types, go_reserved_words, cpp_reserved_words,
}
use xll_gen.Config.ExcelNames.{xlm_reserved_names_list, builtin_function_names_list}
use xll_gen.Config.Validate.{validate}
use xll_gen.Config.Defaults.{apply_defaults}
use xll_gen.Config.Defaults.Modes.{FoldsApart, is_exact}
use xll_gen.Config.Defaults.Whole.{apply_defaults-is_exact}
use xll_gen.Config.Valid
use xll_gen.Config.Valid.Whole.{validate-IsConfig}
use xll_gen.Config.Iff.{Passes}

-- No letters beyond ASCII.
abbrev pub ascii : Unicode
ascii = record { lower = λ c. c; upper = λ c. c; space = λ c. false; fold = λ c d. false }

-- Two durations are known.
abbrev pub durations : Text → Option ℤ
durations s =
    if is s "2s" then some (pos 2000000000) else if is s "250ms" then some (pos 250000000) else none

abbrev fixed_uuid : Text → Text
fixed_uuid s = codes "6ba7b810-9dad-51d1-80b4-00c04fd430c8"

abbrev pub quote : Function
quote = record {
  name = codes "Quote";
  description = [];
  args = record { name = codes "ticker"; type = codes "string"; description = [] } ∷ [];
  return = codes "float";
  is_async = false;
  resizable = false;
  volatile = false;
  category = [];
  shortcut = codes "P";
  help_topic = [];
  timeout = [];
  caller = false;
  macro = false;
  mode = codes "RTD-Once";
  memoize = false;
  memoize_ttl = codes "2s";
  loading_placeholder = codes "Loading";
  cache = none;
}

abbrev plain : Function
plain = record quote {
  name = codes "Plain";
  return = codes "int";
  is_async = true;
  shortcut = [];
  timeout = codes "2s";
  caller = true;
  mode = [];
  memoize_ttl = [];
  loading_placeholder = [];
}

abbrev refresh : Command
refresh = record { name = codes "Refresh"; description = []; handler = []; shortcut = codes "r" }

abbrev button : RibbonButton
button = record {
  label = codes "Go";
  command = codes "Refresh";
  size = [];
  image = codes "HappyFace";
}

abbrev pub demo : Config
demo = record {
  project = record { name = codes "demo"; version = [] };
  build = record { singlefile = codes "xll"; temp_dir = [] };
  logging = record { level = codes "INFO"; dir = [] };
  cache = record { enabled = false; ttl = []; jitter = [] };
  server = record {
    command = [];
    workers = pos 0;
    timeout = codes "2s";
    async_ack_timeout = [];
    launch = none;
    chunk = none;
  };
  functions = quote ∷ plain ∷ [];
  gen = record { go = record { go_module = []; pkg = [] }; disable_pid_suffix = false };
  events = record { type = codes "CalculationEnded"; handler = [] } ∷ [];
  rtd = record {
    enabled = true;
    prog_id = codes "Demo.Rtd";
    clsid = [];
    description = [];
    throttle_interval = codes "250ms";
    loading_placeholder = [];
  };
  commands = refresh ∷ [];
  ribbon = record {
    tab = codes "Demo";
    groups = record { label = []; buttons = button ∷ [] } ∷ [];
    xml = [];
    prog_id = [];
    clsid = [];
    bounce = [];
  };
}

pub demo-Passes : Passes (validate ascii durations demo)
unfolding ◌>>◌ fail_if validate_identifier validate_gen_go_package reject_control_chars
    validate_project_name validate_prog_id validate_clsid check_excel_name_collision
    classify_ribbon_image check_arg check_args check_return validate_function_returns
    check_memoize_ttl check_timeout check_mode validate_function_modes validate_build
    validate_events validate_logging validate_server_timeouts validate_rtd validate_server_chunk
    check_shortcut check_command commands_loop validate_commands check_button check_buttons
    check_groups validate_ribbon validate ribbon_image_file_exts valid_arg_types valid_return_types
    valid_event_types rtd_composite_return_types go_reserved_words cpp_reserved_words
    xlm_reserved_names_list builtin_function_names_list rune_to_lower rune_to_upper rune_folds
    rune_is_space
demo-Passes = refl

ascii-FoldsApart : FoldsApart ascii
ascii-FoldsApart c d b m = (refl, ground (arith, m, b))

validate-IsConfig_example :
    Passes (validate ascii durations demo) ↔ Valid.IsConfig ascii durations demo
validate-IsConfig_example = validate-IsConfig ascii durations demo

-- Excel does not tell these two names apart, but the duplicate check does.
case_variants : Passes (
    validate ascii durations
      (record demo { functions = plain ∷ record plain { name = codes "PLAIN" } ∷ [] }))
unfolding ◌>>◌ fail_if validate_identifier validate_gen_go_package reject_control_chars
    validate_project_name validate_prog_id validate_clsid check_excel_name_collision
    classify_ribbon_image check_arg check_args check_return validate_function_returns
    check_memoize_ttl check_timeout check_mode validate_function_modes validate_build
    validate_events validate_logging validate_server_timeouts validate_rtd validate_server_chunk
    check_shortcut check_command commands_loop validate_commands check_button check_buttons
    check_groups validate_ribbon validate ribbon_image_file_exts valid_arg_types valid_return_types
    valid_event_types rtd_composite_return_types go_reserved_words cpp_reserved_words
    xlm_reserved_names_list builtin_function_names_list rune_to_lower rune_to_upper rune_folds
    rune_is_space
case_variants = refl

apply_defaults-is_exact_example :
    All
      (λ fn. (is_exact fn.mode ≡ true) × (fn.is_async ≡ is fn.mode "async"))
      ((apply_defaults fixed_uuid ascii demo).functions)
apply_defaults-is_exact_example =
    apply_defaults-is_exact ascii ascii-FoldsApart fixed_uuid durations demo demo-Passes
