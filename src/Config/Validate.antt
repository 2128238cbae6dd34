-- ===== src/Config/Validate.antt =====
-- Validate of internal/config/config.go: its checks, in order.
use xll_gen.Prelude.{[], Option, Text, Unicode, ℤ}
use xll_gen.Config.{Config}
use xll_gen.Config.Names.{◌>>◌, validate_gen_go_package, validate_project_name}
use xll_gen.Config.Functions.{validate_function_returns, validate_function_modes}
use xll_gen.Config.Checks.{
  project_name, gen_go_package, ConfigError, text_refused, in_text, in_function, validate_build,
  validate_events, validate_logging, validate_server_timeouts, validate_rtd, validate_server_chunk,
}
use xll_gen.Config.Commands.{validate_commands, validate_ribbon}

unfoldable pub validate : Unicode → (Text → Option ℤ) → Config → Option ConfigError
validate u parse_duration c =
    let (cmd_names, commands_error) = validate_commands u c.functions c.commands in
    in_text (text_refused project_name) (validate_project_name c.project.name)
    >> in_text (text_refused gen_go_package) (validate_gen_go_package c.gen.go.pkg)
    >> validate_build c.build
    >> validate_events [] c.events
    >> in_function (validate_function_returns u c.functions)
    >> validate_logging u c.logging
    >> in_function (validate_function_modes u parse_duration c.rtd.enabled [] c.functions)
    >> validate_server_timeouts parse_duration c.server
    >> validate_rtd parse_duration u c.rtd
    >> validate_server_chunk parse_duration c.server.chunk
    >> commands_error
    >> validate_ribbon u c.commands c.ribbon cmd_names
