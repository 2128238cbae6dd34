-- ===== src/Config/Defaults/Ribbon.antt =====
-- ApplyDefaults on the commands and the ribbon (internal/config/config.go).
use xll_gen.Prelude.{
  map-All, All-append, All-weaken, if-kept, ℕ, ◌≤◌, ◌≡◌, ◌≢◌, refl, true, false, ◌||◌, List, [],
  ◌∷◌, ◌++◌, map, length, length-append, All, if◌then◌else◌, ◌==◌, nat_eq, text_eq, Text, codes,
  Unicode, to_upper, rune_is_space, ltb, arith, ap, sym, subst,
}
use xll_gen.Config.{Command, RibbonButton, RibbonGroup, RibbonConfig}
use xll_gen.Config.Names.{◌>>◌, fail_if, clsid_pattern, is_word_char}
use xll_gen.Config.Functions.{is}
use xll_gen.Config.Commands.{ribbon_enabled}
use xll_gen.Config.Defaults.{
  or_default, clsid_of, command_defaults, button_defaults, group_defaults, ribbon_defaults,
}
use xll_gen.Config.Iff.{◌&◌}
use xll_gen.Config.Valid.Names.{prog_id_runes-Passes}
use xll_gen.Config.Valid
use xll_gen.Config.Defaults.Kept.{map-map, or_default-kept, set_default-kept}

pub command_defaults-IsCommand :
    (u : Unicode) (fn_names : List Text) (cmd : Command)
    → Valid.IsCommand u fn_names cmd
    → Valid.IsCommand u fn_names (command_defaults cmd)
command_defaults-IsCommand u fn_names cmd (a, (b, (m, (f, s)))) =
    (a, (set_default-kept Valid.IsIdentifier cmd.handler cmd.name b a, (m, (f, s))))

pub command_defaults-shortcuts :
    (u : Unicode) (cmds : List Command)
    → Valid.shortcut_keys u (map command_defaults cmds) ≡ Valid.shortcut_keys u cmds
command_defaults-shortcuts u [] = refl
command_defaults-shortcuts u (cmd ∷ cmds) =
    ap (λ rest. if cmd.shortcut == [] then rest else to_upper u cmd.shortcut ∷ rest)
      (command_defaults-shortcuts u cmds)

map-set : (cmds : List Command) → cmds ≢ [] → map command_defaults cmds ≢ []
map-set [] h = h
map-set (cmd ∷ cmds) h = λ q. cc

pub same_command_names :
    (cmds : List Command)
    → map (λ cmd. cmd.name) (map command_defaults cmds) ≡ map (λ cmd. cmd.name) cmds
same_command_names cmds = map-map command_defaults (λ cmd. cmd.name) cmds (λ cmd. refl)

button_defaults-IsButton :
    (u : Unicode) (names : List Text) (btn : RibbonButton)
    → Valid.IsButton u names btn
    → Valid.IsButton u names (button_defaults btn)
button_defaults-IsButton u names btn (a, (b, (c, d))) = (
  a,
  (
    b,
    (
      c,
      or_default-kept (λ t. (t == [] || is t "normal" || is t "large") ≡ true) btn.size
          (codes "normal") (λ q. d) refl,
    ),
  ),
)

groups_kept :
    (u : Unicode) (cmds : List Command) (groups : List RibbonGroup)
    → All (λ g. All (Valid.IsButton u (map (λ cmd. cmd.name) cmds)) g.buttons) groups
    → All
        (λ g. All (Valid.IsButton u (map (λ cmd. cmd.name) (map command_defaults cmds))) g.buttons)
        (map group_defaults groups)
groups_kept u cmds groups h =
    subst (λ names. All (λ g. All (Valid.IsButton u names) g.buttons) (map group_defaults groups))
      (sym (same_command_names cmds))
      (map-All _ _ group_defaults groups
        (λ g k.
          map-All _ _ button_defaults g.buttons
            (button_defaults-IsButton u (map (λ cmd. cmd.name) cmds)) k)
        h)

name_char :
    (u : Unicode) (c : ℕ)
    → (is_word_char c || (c == b'-')) ≡ true
    → ((ltb c 32 || (c == 127)) ≡ false)
      & (((c == b'"') || (c == b'\'') || (c == b'\\') || rune_is_space u c) ≡ false)
unfolding rune_is_space
name_char u c h = ground arith

ribbon-IsProgId :
    (u : Unicode) (project : Text)
    → All (λ c. (is_word_char c || (c == b'-')) ≡ true) project
    → length project ≤ 32
    → Valid.IsProgId u (project ++ codes ".Ribbon")
unfolding ◌>>◌ fail_if rune_is_space
ribbon-IsProgId u project h short = (
  All-append _ project (codes ".Ribbon") (All-weaken _ _ project (name_char u) h)
      ((prog_id_runes-Passes u (codes ".Ribbon")).0 refl),
  let e = length-append project (codes ".Ribbon") in omega (arith, e),
)

module _ (uuid_dns : Text → Text)
    (guid : (s : Text) → clsid_pattern (clsid_of uuid_dns s) ≡ true) where
  pub ribbon_defaults-IsUi :
      (u : Unicode) (project : Text) (cmds : List Command) (r : RibbonConfig)
      → Valid.IsProjectName project
      → length project ≤ 32
      → Valid.IsUi u cmds r
      → Valid.IsUi u (map command_defaults cmds) (ribbon_defaults uuid_dns project r)
  unfolding ribbon_defaults
  ribbon_defaults-IsUi u project cmds r n short (y, f) =
      if-kept (Valid.IsUi u (map command_defaults cmds)) (ribbon_enabled r) _ r
        (λ e.
          let (set, (id, (cl, (bo, (two, gs))))) = y e in
          (
            λ q. (
              map-set cmds set,
              (
                set_default-kept (Valid.IsProgId u) r.prog_id (project ++ codes ".Ribbon") id
                    (ribbon-IsProgId u project n.1 short),
                (
                  set_default-kept (λ t. clsid_pattern t ≡ true) r.clsid _ cl
                      (guid (or_default r.prog_id (project ++ codes ".Ribbon"))),
                  (
                    bo,
                    (
                      λ h. ((two h).0, ap (map group_defaults) (two h).1),
                      groups_kept u cmds r.groups gs,
                    ),
                  ),
                ),
              ),
            ),
            λ q. absurd (cc),
          ))
        (λ e. (λ q. absurd (cc), f))
