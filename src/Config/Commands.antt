-- ===== src/Config/Commands.antt =====
-- validateCommands and validateRibbon of internal/config/config.go.
use xll_gen.Prelude.{
  Bool, true, false, not, ◌&&◌, ◌||◌, List, [], ◌∷◌, Option, none, some, map, if◌then◌else◌, ◌==◌,
  text_eq, mem, Text, Unicode, to_upper, lookup, insert,
}
use xll_gen.Config.{Function, Command, RibbonButton, RibbonGroup, RibbonConfig}
use xll_gen.Config.Names.{
  Reason, ◌>>◌, fail_if, validate_identifier, validate_prog_id, validate_clsid,
  check_excel_name_collision, ImageKind, image_file, image_mso, image_error, classify_ribbon_image,
}
use xll_gen.Config.Functions.{is, is_letter}
use xll_gen.Config.Checks.{
  ribbon_prog_id, ribbon_clsid, ConfigError, text_refused, command_name, command_handler,
  command_is_function, duplicate_command, command_shortcut, shortcut_used, ribbon_without_commands,
  ribbon_bounce, ribbon_two_modes, groups_without_tab, button_without_command,
  button_unknown_command, button_size, button_image, in_text, check_handler,
}

module _ (u : Unicode) where
  -- `prev` is who has the shortcut already.
  abbrev pub check_taken : Text → Option Text → Option ConfigError
  check_taken name none = none
  check_taken name (some prev) = some (shortcut_used name prev)

  unfoldable pub check_shortcut : List (Text × Text) → Command → Option ConfigError
  check_shortcut shortcuts cmd =
      if cmd.shortcut == []
      then none
      else fail_if (not (is_letter cmd.shortcut)) (command_shortcut cmd.name)
        >> check_taken cmd.name (lookup (to_upper u cmd.shortcut) shortcuts)

  unfoldable pub check_command :
      List Text → List Text → List (Text × Text) → Command → Option ConfigError
  unfolding check_shortcut
  check_command fn_names cmd_names shortcuts cmd =
      in_text (command_name cmd.name) (validate_identifier cmd.name)
      >> check_handler (command_handler cmd.handler) cmd.handler
      >> fail_if (mem cmd.name fn_names) (command_is_function cmd.name)
      >> in_text (command_name cmd.name) (check_excel_name_collision u cmd.name)
      >> fail_if (mem cmd.name cmd_names) (duplicate_command cmd.name)
      >> check_shortcut shortcuts cmd

  abbrev pub with_shortcut : Command → List (Text × Text) → List (Text × Text)
  with_shortcut cmd shortcuts =
      if cmd.shortcut == [] then shortcuts else insert (to_upper u cmd.shortcut) cmd.name shortcuts

  abbrev pub names_or :
      Option ConfigError → List Text × Option ConfigError → List Text × Option ConfigError
  names_or none rest = rest
  names_or (some e) rest = ([], some e)

  -- The loop, with the names and the shortcuts so far.
  unfoldable pub commands_loop :
      List Text → List Text → List (Text × Text) → List Command → List Text × Option ConfigError
  unfolding check_command
  commands_loop fn_names cmd_names shortcuts [] = (cmd_names, none)
  commands_loop fn_names cmd_names shortcuts (cmd ∷ cmds) =
      let rest = commands_loop fn_names (cmd.name ∷ cmd_names) (with_shortcut cmd shortcuts) cmds in
      names_or (check_command fn_names cmd_names shortcuts cmd) rest

  unfoldable pub validate_commands : List Function → List Command → List Text × Option ConfigError
  unfolding commands_loop
  validate_commands fns cmds = commands_loop (map (λ fn. fn.name) fns) [] [] cmds

  abbrev pub image_reason : ImageKind → Option Reason
  image_reason image_file = none
  image_reason image_mso = none
  image_reason (image_error r) = some r

  unfoldable pub check_button : List Text → RibbonButton → Option ConfigError
  check_button cmd_names btn =
      fail_if (btn.command == []) (button_without_command btn.label)
      >> fail_if (not (mem btn.command cmd_names)) (button_unknown_command btn.label)
      >> (if btn.image == []
          then none
          else in_text (button_image btn.label) (image_reason (classify_ribbon_image u btn.image)))
      >> fail_if (not (btn.size == [] || is btn.size "normal" || is btn.size "large"))
          (button_size btn.label)

  unfoldable pub check_buttons : List Text → List RibbonButton → Option ConfigError
  unfolding check_button
  check_buttons cmd_names [] = none
  check_buttons cmd_names (btn ∷ btns) = check_button cmd_names btn >> check_buttons cmd_names btns

  unfoldable pub check_groups : List Text → List RibbonGroup → Option ConfigError
  unfolding check_buttons
  check_groups cmd_names [] = none
  check_groups cmd_names (g ∷ groups) =
      check_buttons cmd_names g.buttons >> check_groups cmd_names groups

-- RibbonConfig.Enabled.
abbrev pub ribbon_enabled : RibbonConfig → Bool
ribbon_enabled r = not (r.tab == []) || not (r.xml == [])

abbrev pub is_empty {ℓ} : {A : Type ℓ} → List A → Bool
is_empty [] = true
is_empty (x ∷ xs) = false

unfoldable pub validate_ribbon :
    Unicode → List Command → RibbonConfig → List Text → Option ConfigError
unfolding check_groups
validate_ribbon u commands r cmd_names =
    if ribbon_enabled r
    then fail_if (is_empty commands) ribbon_without_commands
      >> (if r.prog_id == []
          then none
          else in_text (text_refused ribbon_prog_id) (validate_prog_id u r.prog_id))
      >> (if r.clsid == []
          then none
          else in_text (text_refused ribbon_clsid) (validate_clsid r.clsid))
      >> fail_if
          (not
            (r.bounce == [] || is r.bounce "full" || is r.bounce "keep-open" || is r.bounce "off"))
          ribbon_bounce
      >> fail_if (not (r.xml == []) && (not (r.tab == []) || not (is_empty r.groups)))
          ribbon_two_modes
      >> check_groups u cmd_names r.groups
    else fail_if (not (is_empty r.groups)) groups_without_tab
