-- ===== src/Generate.antt =====
-- The advice of cmd/generate.go on projects whose teardown at close never runs.
use xll_gen.Prelude.{
  ◌≡◌, ◌↔◌, refl, Bool, true, false, not, ◌&&◌, List, [], ◌∷◌, Option, Text, Unicode, ℤ,
}
use xll_gen.Config.{Config, Command}
use xll_gen.Config.Commands.{ribbon_enabled, is_empty}
use xll_gen.Config.Validate.{validate}
use xll_gen.Config.Iff.{Passes}
use xll_gen.Config.Valid.Whole.{validate-IsConfig}

-- Whether rtdWithoutComAddInWarning gives its text. The configuration is no nil pointer.
abbrev rtd_without_com_add_in : Config → Bool
rtd_without_com_add_in c =
    c.rtd.enabled && not (not (is_empty c.commands) && ribbon_enabled c.ribbon)

advised :
    (enabled : Bool) (commands : List Command) (ribbon : Bool)
    → (ribbon ≡ true → is_empty commands ≡ false)
    → ((enabled && not (not (is_empty commands) && ribbon)) ≡ true)
      ↔ ((enabled ≡ true) × (ribbon ≡ false))
advised true [] true h = absurd (cc (h refl))
advised true (x ∷ commands) true h = (λ q. absurd (cc), λ (p, q). absurd (cc))
advised true [] false h = (λ q. (refl, refl), λ q. refl)
advised true (x ∷ commands) false h = (λ q. (refl, refl), λ q. refl)
advised false commands ribbon h = (λ q. absurd (cc), λ (p, q). absurd (cc))

-- For an accepted configuration the advice is given exactly when RTD is on and there is no ribbon,
-- whatever commands there are.
validate-rtd_without_com_add_in :
    (u : Unicode) (parse_duration : Text → Option ℤ) (c : Config)
    → Passes (validate u parse_duration c)
    → (rtd_without_com_add_in c ≡ true)
      ↔ ((c.rtd.enabled ≡ true) × (ribbon_enabled c.ribbon ≡ false))
validate-rtd_without_com_add_in u parse_duration c v =
    let (
      name,
      (
        pkg,
        (
          build,
          (events, (types, (log, (modes, (server, (rtd, (chunk, (commands, (ui, groups))))))))),
        ),
      ),
    ) =
      (validate-IsConfig u parse_duration c).0 v in
    advised c.rtd.enabled c.commands (ribbon_enabled c.ribbon)
      (λ e. let (some_commands, rest) = ui e in set c.commands some_commands)
  where
    set : (cs : List Command) → (cs ≡ [] → ⊥) → is_empty cs ≡ false
    set [] h = absurd (h refl)
    set (x ∷ cs) h = refl
