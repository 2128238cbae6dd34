-- ===== src/Config/Valid/Commands.antt =====
-- The check of the commands accepts exactly the lists whose commands fit, with names and shortcuts that
-- differ (internal/config/config.go).
use xll_gen.Prelude.{
  ◌≡◌, ◌≢◌, ◌↔◌, refl, Bool, true, false, ◌||◌, List, [], ◌∷◌, Option, none, some, map,
  if◌then◌else◌, ◌==◌, text_eq, mem, All, Text, Unicode, to_upper, arith, ◌∙◌, ap, lookup, insert,
  lookup-insert,
}
use xll_gen.Config.{Function, Command}
use xll_gen.Config.Names.{Reason, validate_identifier, check_excel_name_collision}
use xll_gen.Config.Functions.{is_letter}
use xll_gen.Config.Checks.{
  ConfigError, command_name, command_handler, command_is_function, duplicate_command,
  command_shortcut, in_text, check_handler,
}
use xll_gen.Config.Commands.{
  check_taken, check_shortcut, check_command, with_shortcut, names_or, commands_loop,
  validate_commands,
}
use xll_gen.Config.Iff.{
  ◌&◌, Passes, ↔-trans, both, first-Passes, fail_if-Passes, needs-Passes, if_set-Passes,
}
use xll_gen.Config.Valid.{IsIdentifier, IsCommand, shortcut_keys, HasCommands}
use xll_gen.Config.Valid.Names.{validate_identifier-IsIdentifier, check_excel_name_collision-IsFree}
use xll_gen.Config.Valid.Distinct.{AreNew, AreNew-AllDistinct}

pub in_text-Passes :
    (wrap : Reason → ConfigError) (e : Option Reason) → Passes (in_text wrap e) ↔ Passes e
in_text-Passes wrap none = (λ h. refl, λ h. refl)
in_text-Passes wrap (some r) = (λ h. cc, λ h. cc)

pub check_handler-Passes :
    (wrap : Reason → ConfigError) (handler : Text)
    → Passes (check_handler wrap handler) ↔ (handler ≢ [] → IsIdentifier handler)
check_handler-Passes wrap handler = if_set-Passes handler _ (
    ↔-trans (in_text-Passes wrap (validate_identifier handler))
      (validate_identifier-IsIdentifier handler))

-- The map of shortcuts has these keys.
abbrev HasKeys : List (Text × Text) → List Text → Type 0
HasKeys m keys = (k : Text) → (lookup k m ≡ none) ↔ (mem k keys ≡ false)

insert-HasKeys :
    (m : List (Text × Text)) (keys : List Text) (key name : Text)
    → HasKeys m keys
    → HasKeys (insert key name m) (key ∷ keys)
insert-HasKeys m keys key name h k =
    let e = lookup-insert key k name m in
    (λ a. ground (arith, e, a, h k), λ a. ground (arith, e, a, h k))

or_swap : (a b c : Bool) → ((a || b) || c) ≡ (b || (a || c))
or_swap true true c = refl
or_swap true false c = refl
or_swap false b c = refl

or_nothing : (a : Bool) → a ≡ (a || false)
or_nothing true = refl
or_nothing false = refl

module _ (u : Unicode) where
  check_taken-Passes : (name : Text) (o : Option Text) → Passes (check_taken u name o) ↔ (o ≡ none)
  check_taken-Passes name none = (λ h. refl, λ h. refl)
  check_taken-Passes name (some p) = (λ h. cc, λ h. cc)

  -- A shortcut is a letter that none before it is.
  abbrev KeyIsNew : List Text → Command → Type 0
  KeyIsNew keys cmd = cmd.shortcut ≢ [] → mem (to_upper u cmd.shortcut) keys ≡ false

  check_shortcut-Passes :
      (m : List (Text × Text)) (keys : List Text) (cmd : Command)
      → HasKeys m keys
      → Passes (check_shortcut u m cmd) ↔ (
          cmd.shortcut ≢ []
          → (is_letter cmd.shortcut ≡ true) & (mem (to_upper u cmd.shortcut) keys ≡ false))
  unfolding check_shortcut
  check_shortcut-Passes m keys cmd h = if_set-Passes cmd.shortcut _ (
      first-Passes _ _ (needs-Passes (is_letter cmd.shortcut) (command_shortcut cmd.name)) (
        ↔-trans (check_taken-Passes cmd.name (lookup (to_upper u cmd.shortcut) m))
          (h (to_upper u cmd.shortcut))))

  abbrev keys_with : Text → List Text → List Text
  keys_with s keys = if s == [] then keys else to_upper u s ∷ keys

  AreNew-keys :
      (s : Text) (keys rest : List Text)
      → AreNew keys (if s == [] then rest else to_upper u s ∷ rest)
        ↔ ((s ≢ [] → mem (to_upper u s) keys ≡ false) & AreNew (keys_with s keys) rest)
  AreNew-keys [] keys rest = (λ h. (λ q. absurd (q refl), h), λ h. h.1)
  AreNew-keys (c ∷ s) keys rest = (λ h. (λ q. h.0, h.1), λ h. (h.0 (λ p. cc), h.1))

  with_shortcut-HasKeys :
      (s name : Text) (m : List (Text × Text)) (keys : List Text)
      → HasKeys m keys
      → HasKeys (if s == [] then m else insert (to_upper u s) name m) (keys_with s keys)
  with_shortcut-HasKeys [] name m keys h = h
  with_shortcut-HasKeys (c ∷ s) name m keys h = insert-HasKeys m keys (to_upper u (c ∷ s)) name h

  check_command-Passes :
      (fn_names names : List Text) (m : List (Text × Text)) (keys : List Text) (cmd : Command)
      → HasKeys m keys
      → Passes (check_command u fn_names names m cmd)
        ↔ (IsCommand u fn_names cmd & ((mem cmd.name names ≡ false) & KeyIsNew keys cmd))
  unfolding check_command
  check_command-Passes fn_names names m keys cmd h =
      ↔-trans
        (first-Passes _ _
          (↔-trans (in_text-Passes (command_name cmd.name) (validate_identifier cmd.name))
            (validate_identifier-IsIdentifier cmd.name))
          (first-Passes _ _ (check_handler-Passes (command_handler cmd.handler) cmd.handler) (
            first-Passes _ _ (fail_if-Passes (mem cmd.name fn_names) (command_is_function cmd.name))
              (first-Passes _ _
                (↔-trans
                  (in_text-Passes (command_name cmd.name) (check_excel_name_collision u cmd.name))
                  (check_excel_name_collision-IsFree u cmd.name))
                (first-Passes _ _ (fail_if-Passes (mem cmd.name names) (duplicate_command cmd.name))
                  (check_shortcut-Passes m keys cmd h))))))
        (
          λ (a, (b, (d, (e, (n, k))))). ((a, (b, (d, (e, λ q. (k q).0)))), (n, λ q. (k q).1)),
          λ ((a, (b, (d, (e, l)))), (n, k)). (a, (b, (d, (e, (n, λ q. (l q, k q)))))),
        )

  names_or-Passes :
      (e : Option ConfigError) (rest : List Text × Option ConfigError)
      → Passes (names_or u e rest).1 ↔ (Passes e & Passes (rest.1))
  names_or-Passes none rest = (λ h. (refl, h), λ h. h.1)
  names_or-Passes (some x) rest = (λ h. cc, λ h. cc)

  commands_loop-Passes :
      (fn_names names : List Text) (m : List (Text × Text)) (keys : List Text) (cmds : List Command)
      → HasKeys m keys
      → Passes (commands_loop u fn_names names m cmds).1 ↔ (
          All (IsCommand u fn_names) cmds
          & (AreNew names (map (λ cmd. cmd.name) cmds) & AreNew keys (shortcut_keys u cmds)))
  unfolding commands_loop
  commands_loop-Passes fn_names names m keys [] h = (λ e. (tt, (tt, tt)), λ e. refl)
  commands_loop-Passes fn_names names m keys (cmd ∷ cmds) h =
      let keys' = keys_with cmd.shortcut keys in
      let m' = with_shortcut u cmd m in
      let h' = with_shortcut-HasKeys cmd.shortcut cmd.name m keys h in
      let ih = commands_loop-Passes fn_names (cmd.name ∷ names) m' keys' cmds h' in
      let here = check_command-Passes fn_names names m keys cmd h in
      let new = AreNew-keys cmd.shortcut keys (shortcut_keys u cmds) in
      ↔-trans
        (names_or-Passes (check_command u fn_names names m cmd)
          (commands_loop u fn_names (cmd.name ∷ names) m' cmds))
        (↔-trans (both here ih) (
          λ ((a, (n, k)), (as', (ns, ks))). ((a, as'), ((n, ns), new.1 (k, ks))),
          λ ((a, as'), ((n, ns), q)). let (k, ks) = new.0 q in ((a, (n, k)), (as', (ns, ks))),
        ))

  no_keys : HasKeys [] []
  no_keys k = (λ h. refl, λ h. refl)

  pub validate_commands-HasCommands :
      (fns : List Function) (cmds : List Command)
      → Passes (validate_commands u fns cmds).1 ↔ HasCommands u (map (λ fn. fn.name) fns) cmds
  unfolding validate_commands
  validate_commands-HasCommands fns cmds =
      ↔-trans (commands_loop-Passes (map (λ fn. fn.name) fns) [] [] [] cmds no_keys) (
        both (λ a. a, λ a. a)
          (both (AreNew-AllDistinct (map (λ cmd. cmd.name) cmds))
            (AreNew-AllDistinct (shortcut_keys u cmds))))

  names_or-names :
      (e : Option ConfigError) (rest : List Text × Option ConfigError)
      → Passes (names_or u e rest).1
      → (names_or u e rest).0 ≡ rest.0
  names_or-names none rest h = refl
  names_or-names (some x) rest h = cc

  commands_loop-names :
      (fn_names names : List Text) (m : List (Text × Text)) (cmds : List Command) (x : Text)
      → Passes (commands_loop u fn_names names m cmds).1
      → mem x (commands_loop u fn_names names m cmds).0
        ≡ (mem x names || mem x (map (λ cmd. cmd.name) cmds))
  unfolding commands_loop
  commands_loop-names fn_names names m [] x h = or_nothing (mem x names)
  commands_loop-names fn_names names m (cmd ∷ cmds) x h =
      let here = check_command u fn_names names m cmd in
      let m' = with_shortcut u cmd m in
      let rest = commands_loop u fn_names (cmd.name ∷ names) m' cmds in
      let later = ((names_or-Passes here rest).0 h).1 in
      ap (mem x) (names_or-names here rest h)
      ∙ commands_loop-names fn_names (cmd.name ∷ names) m' cmds x later
      ∙ or_swap (cmd.name == x) (mem x names) (mem x (map (λ k. k.name) cmds))

  -- The names that the ribbon may use are those of the commands.
  pub validate_commands-names :
      (fns : List Function) (cmds : List Command) (x : Text)
      → Passes (validate_commands u fns cmds).1
      → mem x (validate_commands u fns cmds).0 ≡ mem x (map (λ cmd. cmd.name) cmds)
  unfolding validate_commands
  validate_commands-names fns cmds x h =
      commands_loop-names (map (λ fn. fn.name) fns) [] [] cmds x h
