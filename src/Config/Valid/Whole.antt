-- ===== src/Config/Valid/Whole.antt =====
-- Validate accepts exactly the configurations that fit (internal/config/config.go).
use xll_gen.Prelude.{
  ◌≡◌, ◌≢◌, ◌↔◌, refl, true, false, not, ◌||◌, List, [], ◌∷◌, Option, none, some, map, ◌==◌,
  text_eq, mem, All, Text, Unicode, ℤ, ◌∙◌, sym,
}
use xll_gen.Config.{Config, Command, RibbonButton, RibbonGroup, RibbonConfig}
use xll_gen.Config.Names.{
  validate_gen_go_package, validate_project_name, validate_prog_id, validate_clsid,
  classify_ribbon_image,
}
use xll_gen.Config.Functions.{is, validate_function_returns, validate_function_modes, FunctionFault}
use xll_gen.Config.Checks.{
  text_refused, project_name, gen_go_package, ribbon_prog_id, ribbon_clsid, ribbon_without_commands,
  ribbon_bounce, ribbon_two_modes, groups_without_tab, button_without_command,
  button_unknown_command, button_size, button_image, in_function,
}
use xll_gen.Config.Commands.{
  image_reason, check_button, check_buttons, check_groups, ribbon_enabled, is_empty,
  validate_ribbon, validate_commands,
}
use xll_gen.Config.Validate.{validate}
use xll_gen.Config.Iff.{
  ◌&◌, Passes, ↔-trans, both, first-Passes, then-Passes, branch-Passes, excludes-Passes,
  fail_if-Passes, needs-Passes, if_set-Passes, is_empty-false,
}
use xll_gen.Config.Valid.{IsButton, IsUi, IsConfig}
use xll_gen.Config.Valid.Names.{
  validate_gen_go_package-IsPackage, validate_project_name-IsProjectName, validate_prog_id-IsProgId,
  validate_clsid_iff,
}
use xll_gen.Config.Valid.Distinct.{AreNew-AllDistinct}
use xll_gen.Config.Valid.Functions.{
  validate_function_returns-HasTypes, validate_function_modes-HasMode,
}
use xll_gen.Config.Valid.Commands.{
  in_text-Passes, validate_commands-HasCommands, validate_commands-names,
}
use xll_gen.Config.Valid.Checks.{
  validate_build-IsBuild, validate_events-IsEvent, validate_logging-IsLogging,
  validate_server_timeouts-IsServer, validate_rtd-IsRtd, validate_server_chunk-IsChunk,
}

in_function-Passes : (e : Option (Text × FunctionFault)) → Passes (in_function e) ↔ Passes e
in_function-Passes none = (λ h. refl, λ h. refl)
in_function-Passes (some (name, f)) = (λ h. cc, λ h. cc)

nil_iff {ℓ} : {A : Type ℓ} (xs : List A) → (is_empty xs ≡ true) ↔ (xs ≡ [])
nil_iff [] = (λ h. refl, λ h. refl)
nil_iff (x ∷ xs) = (λ h. cc, λ h. cc)

not_nil_iff {ℓ} : {A : Type ℓ} (xs : List A) → (is_empty xs ≡ false) ↔ (xs ≢ [])
not_nil_iff [] = (λ h. cc, λ h. absurd (h refl))
not_nil_iff (x ∷ xs) = (λ h q. cc, λ h. refl)

two_modes_iff {ℓ} :
    {A : Type ℓ} (tab : Text) (groups : List A)
    → ((not (tab == []) || not (is_empty groups)) ≡ false) ↔ ((tab ≡ []) & (groups ≡ []))
two_modes_iff [] [] = (λ h. (refl, refl), λ h. refl)
two_modes_iff [] (g ∷ groups) = (λ h. cc, λ (a, b). cc)
two_modes_iff (c ∷ tab) groups = (λ h. cc, λ (a, b). cc)

set_iff : (s : Text) → (not (s == []) ≡ true) ↔ (s ≢ [])
set_iff [] = (λ h. cc, λ h. absurd (h refl))
set_iff (c ∷ s) = (λ h q. cc, λ h. refl)

module _ (u : Unicode) where
  -- `names` may list the declared commands in any order.
  check_button-IsButton :
      (names declared : List Text) (btn : RibbonButton)
      → ((x : Text) → mem x names ≡ mem x declared)
      → Passes (check_button u names btn) ↔ IsButton u declared btn
  unfolding check_button
  check_button-IsButton names declared btn same =
      let e = same btn.command in
      first-Passes _ _
        (↔-trans (fail_if-Passes (btn.command == []) (button_without_command btn.label))
          (is_empty-false btn.command))
        (first-Passes _ _
          (↔-trans (needs-Passes (mem btn.command names) (button_unknown_command btn.label))
            (λ h. sym e ∙ h, λ h. e ∙ h))
          (first-Passes _ _
            (if_set-Passes btn.image _ (
              in_text-Passes (button_image btn.label)
                (image_reason u (classify_ribbon_image u btn.image))))
            (needs-Passes (btn.size == [] || is btn.size "normal" || is btn.size "large")
              (button_size btn.label))))

  check_buttons-IsButton :
      (names declared : List Text) (btns : List RibbonButton)
      → ((x : Text) → mem x names ≡ mem x declared)
      → Passes (check_buttons u names btns) ↔ All (IsButton u declared) btns
  unfolding check_buttons
  check_buttons-IsButton names declared [] same = (λ h. tt, λ h. refl)
  check_buttons-IsButton names declared (btn ∷ btns) same =
      first-Passes _ _ (check_button-IsButton names declared btn same)
        (check_buttons-IsButton names declared btns same)

  check_groups-IsButton :
      (names declared : List Text) (groups : List RibbonGroup)
      → ((x : Text) → mem x names ≡ mem x declared)
      → Passes (check_groups u names groups) ↔ All (λ g. All (IsButton u declared) g.buttons) groups
  unfolding check_groups
  check_groups-IsButton names declared [] same = (λ h. tt, λ h. refl)
  check_groups-IsButton names declared (g ∷ groups) same =
      first-Passes _ _ (check_buttons-IsButton names declared g.buttons same)
        (check_groups-IsButton names declared groups same)

  validate_ribbon-IsUi :
      (cmds : List Command) (r : RibbonConfig) (names : List Text)
      → ((x : Text) → mem x names ≡ mem x (map (λ cmd. cmd.name) cmds))
      → Passes (validate_ribbon u cmds r names) ↔ IsUi u cmds r
  unfolding validate_ribbon
  validate_ribbon-IsUi cmds r names same =
      let m = two_modes_iff r.tab r.groups in
      let x = set_iff r.xml in
      branch-Passes (ribbon_enabled r) _ _
        (first-Passes _ _
          (↔-trans (fail_if-Passes (is_empty cmds) ribbon_without_commands) (not_nil_iff cmds))
          (first-Passes _ _
            (if_set-Passes r.prog_id _ (
              ↔-trans (in_text-Passes (text_refused ribbon_prog_id) (validate_prog_id u r.prog_id))
                (validate_prog_id-IsProgId u r.prog_id)))
            (first-Passes _ _
              (if_set-Passes r.clsid _ (
                ↔-trans (in_text-Passes (text_refused ribbon_clsid) (validate_clsid r.clsid))
                  (validate_clsid_iff r.clsid)))
              (first-Passes _ _
                (needs-Passes
                  (r.bounce == []
                    || is r.bounce "full"
                    || is r.bounce "keep-open"
                    || is r.bounce "off")
                  ribbon_bounce)
                (first-Passes _ _
                  (↔-trans
                    (excludes-Passes (not (r.xml == []))
                      (not (r.tab == []) || not (is_empty r.groups)) ribbon_two_modes)
                    (λ h q. m.0 (h (x.1 q)), λ h q. m.1 (h (x.0 q))))
                  (check_groups-IsButton names (map (λ cmd. cmd.name) cmds) r.groups same))))))
        (↔-trans (needs-Passes (is_empty r.groups) groups_without_tab) (nil_iff r.groups))

-- Validate accepts a configuration exactly if all of it fits: names are identifiers that neither Go, C++
-- nor Excel takes, functions, arguments, events, commands and shortcuts have no duplicates, no command is
-- a function, types and modes go together, durations parse and are in range, and every button of the
-- ribbon has a declared command.
pub validate-IsConfig :
    (u : Unicode) (parse_duration : Text → Option ℤ) (c : Config)
    → Passes (validate u parse_duration c) ↔ IsConfig u parse_duration c
unfolding validate
validate-IsConfig u parse_duration c =
    first-Passes _ _
      (↔-trans (in_text-Passes (text_refused project_name) (validate_project_name c.project.name))
        (validate_project_name-IsProjectName c.project.name))
      (first-Passes _ _
        (↔-trans
          (in_text-Passes (text_refused gen_go_package) (validate_gen_go_package c.gen.go.pkg))
          (validate_gen_go_package-IsPackage c.gen.go.pkg))
        (first-Passes _ _ (validate_build-IsBuild c.build) (
          first-Passes _ _
            (↔-trans (validate_events-IsEvent [] c.events)
              (both (λ a. a, λ a. a) (AreNew-AllDistinct (map (λ evt. evt.type) c.events))))
            (first-Passes _ _
              (↔-trans (in_function-Passes (validate_function_returns u c.functions))
                (validate_function_returns-HasTypes u c.functions))
              (first-Passes _ _ (validate_logging-IsLogging u c.logging) (
                first-Passes _ _
                  (↔-trans
                    (in_function-Passes
                      (validate_function_modes u parse_duration c.rtd.enabled [] c.functions))
                    (↔-trans
                      (validate_function_modes-HasMode u parse_duration c.rtd.enabled []
                        c.functions)
                      (both (λ a. a, λ a. a)
                        (AreNew-AllDistinct (map (λ fn. fn.name) c.functions)))))
                  (first-Passes _ _ (validate_server_timeouts-IsServer parse_duration c.server) (
                    first-Passes _ _ (validate_rtd-IsRtd parse_duration u c.rtd) (
                      first-Passes _ _ (validate_server_chunk-IsChunk parse_duration c.server.chunk)
                        (then-Passes _ _ (validate_commands-HasCommands u c.functions c.commands)
                          (λ h.
                            validate_ribbon-IsUi u c.commands c.ribbon
                              (validate_commands u c.functions c.commands).0
                              (λ x. validate_commands-names u c.functions c.commands x (
                                (validate_commands-HasCommands u c.functions c.commands).1
                                  h)))))))))))))
