-- ===== src/Config/Checks.antt =====
-- The errors of Validate of internal/config/config.go, and its checks of the parts of a configuration.
use xll_gen.Prelude.{
  ◌/◌, not, ◌&&◌, ◌||◌, List, [], ◌∷◌, Option, none, some, if◌then◌else◌, ◌==◌, nat_eq, text_eq,
  mem, Text, Unicode, to_lower, ℤ, pos, negsuc, is_negative, ltb,
}
use xll_gen.Config.{BuildConfig, LoggingConfig, ChunkConfig, ServerConfig, Event, RtdConfig}
use xll_gen.Config.Words.{valid_event_types}
use xll_gen.Config.Names.{
  Reason, ◌>>◌, fail_if, is_listed, validate_identifier, reject_control_chars, validate_prog_id,
  validate_clsid,
}
use xll_gen.Config.Functions.{FunctionFault, is, is_parsed}

pub data Field : Type 0 where
  project_name gen_go_package build_temp_dir logging_dir : Field
  rtd_prog_id rtd_clsid ribbon_prog_id ribbon_clsid : Field
  server_timeout server_async_ack_timeout rtd_throttle_interval : Field
  chunk_cleanup_interval chunk_buffer_ttl : Field
  chunk_max_buffer_bytes chunk_max_concurrent_transfers : Field

pub data ConfigError : Type 0 where
  text_refused : Field → Reason → ConfigError
  duration_unparsed must_be_non_negative : Field → ConfigError
  singlefile_exe singlefile_unknown : ConfigError
  duplicate_event unsupported_event : Text → ConfigError
  event_handler : Text → Reason → ConfigError
  function_refused : Text → FunctionFault → ConfigError
  invalid_level : ConfigError
  prog_id_required throttle_without_rtd throttle_out_of_range : ConfigError
  command_name command_handler : Text → Reason → ConfigError
  command_is_function duplicate_command command_shortcut : Text → ConfigError
  -- The command, and the earlier one that has its shortcut.
  shortcut_used : Text → Text → ConfigError
  ribbon_without_commands ribbon_bounce ribbon_two_modes groups_without_tab : ConfigError
  button_without_command button_unknown_command button_size : Text → ConfigError
  button_image : Text → Reason → ConfigError

abbrev pub in_text : (Reason → ConfigError) → Option Reason → Option ConfigError
in_text wrap none = none
in_text wrap (some r) = some (wrap r)

abbrev pub in_function : Option (Text × FunctionFault) → Option ConfigError
in_function none = none
in_function (some (name, f)) = some (function_refused name f)

unfoldable pub validate_build : BuildConfig → Option ConfigError
validate_build b =
    (if b.singlefile == []
      then none
      else if is b.singlefile "xll"
      then none
      else if is b.singlefile "exe"
      then some singlefile_exe
      else some singlefile_unknown)
    >> in_text (text_refused build_temp_dir) (reject_control_chars b.temp_dir)

-- An empty handler takes its default later.
abbrev pub check_handler : (Reason → ConfigError) → Text → Option ConfigError
check_handler wrap handler =
    if handler == [] then none else in_text wrap (validate_identifier handler)

unfoldable pub validate_events : List Text → List Event → Option ConfigError
validate_events seen [] = none
validate_events seen (evt ∷ events) =
    fail_if (mem evt.type seen) (duplicate_event evt.type)
    >> fail_if (not (is_listed evt.type valid_event_types)) (unsupported_event evt.type)
    >> check_handler (event_handler evt.handler) evt.handler
    >> validate_events (evt.type ∷ seen) events

module _ (u : Unicode) where
  unfoldable pub validate_logging : LoggingConfig → Option ConfigError
  validate_logging l =
      let level = to_lower u l.level in
      fail_if
        (not (l.level == [])
          && not (is level "debug" || is level "info" || is level "warn" || is level "error"))
        invalid_level
      >> in_text (text_refused logging_dir) (reject_control_chars l.dir)

module _ (parse_duration : Text → Option ℤ) where
  -- An empty duration is unset.
  abbrev pub check_duration : Field → Text → Option ConfigError
  check_duration field s =
      fail_if (not (s == []) && not (is_parsed (parse_duration s))) (duration_unparsed field)

  unfoldable pub validate_server_timeouts : ServerConfig → Option ConfigError
  validate_server_timeouts s =
      check_duration server_timeout s.timeout
      >> check_duration server_async_ack_timeout s.async_ack_timeout

  -- `d.Milliseconds()` of a duration that is not negative.
  abbrev pub check_throttle : Option ℤ → Option ConfigError
  check_throttle none = some (duration_unparsed rtd_throttle_interval)
  check_throttle (some (negsuc n)) = some throttle_out_of_range
  check_throttle (some (pos n)) = fail_if (ltb 2147483647 (n / 1000000)) throttle_out_of_range

  unfoldable pub validate_rtd : Unicode → RtdConfig → Option ConfigError
  validate_rtd u r =
      fail_if (r.enabled && (r.prog_id == [])) prog_id_required
      >> (if r.prog_id == []
          then none
          else in_text (text_refused rtd_prog_id) (validate_prog_id u r.prog_id))
      >> (if r.clsid == [] then none else in_text (text_refused rtd_clsid) (validate_clsid r.clsid))
      >> (if r.throttle_interval == []
          then none
          else fail_if (not r.enabled) throttle_without_rtd
            >> check_throttle (parse_duration r.throttle_interval))

  unfoldable pub validate_server_chunk : Option ChunkConfig → Option ConfigError
  validate_server_chunk none = none
  validate_server_chunk (some c) =
      fail_if (is_negative c.max_buffer_bytes) (must_be_non_negative chunk_max_buffer_bytes)
      >> check_duration chunk_cleanup_interval c.cleanup_interval
      >> check_duration chunk_buffer_ttl c.buffer_ttl
      >> fail_if (is_negative c.max_concurrent_transfers)
          (must_be_non_negative chunk_max_concurrent_transfers)
