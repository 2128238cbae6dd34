-- ===== src/Config/Valid.antt =====
-- What an accepted configuration is, said without the order of the checks (internal/config/config.go).
pub mod Names
pub mod Distinct
pub mod Functions
pub mod Commands
pub mod Checks
pub mod Whole
use xll_gen.Prelude.{
  ℕ, ◌/◌, ◌≤◌, ◌≡◌, ◌≢◌, ◌⊎◌, Bool, true, false, ◌||◌, List, [], ◌∷◌, Option, none, some, map,
  length, ◌==◌, nat_eq, text_eq, mem, AllDistinct, All, any, Text, codes, Unicode, to_lower,
  to_upper, equal_fold, rune_is_space, ltb, if◌then◌else◌, ℤ, pos, negsuc, is_negative,
}
use xll_gen.Config
use xll_gen.Config.{
  Config, BuildConfig, LoggingConfig, ServerConfig, ChunkConfig, Arg, Function, Event, RtdConfig,
  Command, RibbonButton, RibbonGroup, RibbonConfig,
}
use xll_gen.Config.Words.{
  go_reserved_words, cpp_reserved_words, valid_arg_types, valid_return_types, valid_event_types,
  rtd_composite_return_types,
}
use xll_gen.Config.ExcelNames.{xlm_reserved_names_list, builtin_function_names_list}
use xll_gen.Config.Names.{
  is_listed, is_word_char, starts_with_digit, clsid_pattern, ImageKind, image_file, image_mso,
  image_error, classify_ribbon_image,
}
use xll_gen.Config.Iff.{◌&◌}
use xll_gen.Config.Functions.{is, is_mode, is_letter, is_parsed, is_positive}
use xll_gen.Config.Commands.{ribbon_enabled, image_reason}

-- A name that Go and C++ take as an identifier.
abbrev pub IsIdentifier : Text → Type 0
IsIdentifier name =
    (name ≢ [])
    & All (λ c. is_word_char c ≡ true) name
    & (starts_with_digit name ≡ false)
    & (is_listed name go_reserved_words ≡ false)
    & (is_listed name cpp_reserved_words ≡ false)

abbrev pub IsPackage : Text → Type 0
IsPackage pkg =
    All (λ c. is_word_char c ≡ true) pkg
    & (starts_with_digit pkg ≡ false)
    & (is_listed pkg go_reserved_words ≡ false)
    & (pkg ≢ codes "main")

abbrev pub IsProjectName : Text → Type 0
IsProjectName name = (name ≢ []) & All (λ c. (is_word_char c || (c == b'-')) ≡ true) name

abbrev pub IsPrintable : Text → Type 0
IsPrintable = All (λ c. ltb c 32 ≡ false)

module _ (u : Unicode) where
  abbrev pub IsProgId : Text → Type 0
  IsProgId s =
      All
        (λ c.
          ((ltb c 32 || (c == 127)) ≡ false)
          & (((c == b'"') || (c == b'\'') || (c == b'\\') || rune_is_space u c) ≡ false))
        s
      & (length s ≤ 39)

  -- Excel's own names do not hide it.
  abbrev pub IsFree : Text → Type 0
  IsFree name =
      (is_listed (to_upper u name) xlm_reserved_names_list ≡ false)
      & (is_listed (to_upper u name) builtin_function_names_list ≡ false)

abbrev pub IsArg : Arg → Type 0
IsArg a =
    IsIdentifier a.name & (mem b'_' a.name ≡ false) & (is_listed a.type valid_arg_types ≡ true)

module _ (u : Unicode) where
  abbrev pub is_rtd : Function → Bool
  is_rtd fn = equal_fold u fn.mode (codes "rtd")

  abbrev pub is_once : Function → Bool
  is_once fn = equal_fold u fn.mode (codes "rtd-once")

  -- The types fit, and the arguments have distinct names.
  abbrev pub HasTypes : Function → Type 0
  HasTypes fn =
      (is_listed fn.return valid_return_types ≡ true)
      & (is_rtd fn ≡ true → is_listed fn.return rtd_composite_return_types ≡ false)
      & All IsArg fn.args
      & AllDistinct (map (λ a. a.name) fn.args)

  module _ (parse_duration : Text → Option ℤ) where
    -- The lifetime of a result, only for rtd-once.
    abbrev pub HasTtl : Function → Type 0
    HasTtl fn =
        (is_once fn ≡ true)
        & (fn.memoize ≡ false)
        & ((d : ℤ) × (parse_duration fn.memoize_ttl ≡ some d) × (is_positive d ≡ true))

    abbrev pub HasMode : Bool → Function → Type 0
    HasMode rtd_enabled fn =
        IsIdentifier fn.name
        & IsFree u fn.name
        & (fn.mode ≢ [] → is_mode u fn.mode ≡ true)
        & (is_once fn ≡ true → rtd_enabled ≡ true)
        & (fn.memoize ≡ true → is_once fn ≡ true)
        & (fn.memoize_ttl ≢ [] → HasTtl fn)
        & (fn.loading_placeholder ≢ [] → (is_once fn || is_rtd fn) ≡ true)
        & (fn.caller ≡ true → is_once fn ≡ false)
        & (fn.macro ≡ true → is_once fn ≡ false)
        & (fn.shortcut ≢ [] → is_letter fn.shortcut ≡ true)
        & (fn.timeout ≢ []
            → ((is_rtd fn || is_once fn) ≡ false) & (is_parsed (parse_duration fn.timeout) ≡ true))

module _ (u : Unicode) where
  abbrev pub IsCommand : List Text → Command → Type 0
  IsCommand fn_names cmd =
      IsIdentifier cmd.name
      & (cmd.handler ≢ [] → IsIdentifier cmd.handler)
      & (mem cmd.name fn_names ≡ false)
      & IsFree u cmd.name
      & (cmd.shortcut ≢ [] → is_letter cmd.shortcut ≡ true)

  -- The keys of the commands that have one, in upper case.
  abbrev pub shortcut_keys : List Command → List Text
  shortcut_keys [] = []
  shortcut_keys (cmd ∷ cmds) =
      let rest = shortcut_keys cmds in
      if cmd.shortcut == [] then rest else to_upper u cmd.shortcut ∷ rest

  abbrev pub HasCommands : List Text → List Command → Type 0
  HasCommands fn_names cmds =
      All (IsCommand fn_names) cmds
      & AllDistinct (map (λ cmd. cmd.name) cmds)
      & AllDistinct (shortcut_keys cmds)

abbrev pub IsEvent : Event → Type 0
IsEvent evt =
    (is_listed evt.type valid_event_types ≡ true) & (evt.handler ≢ [] → IsIdentifier evt.handler)

abbrev pub IsBuild : BuildConfig → Type 0
IsBuild b = (b.singlefile ≢ [] → b.singlefile ≡ codes "xll") & IsPrintable b.temp_dir

module _ (u : Unicode) where
  abbrev pub IsLogging : LoggingConfig → Type 0
  IsLogging l =
      let level = to_lower u l.level in
      (l.level ≢ []
        → (is level "debug" || is level "info" || is level "warn" || is level "error") ≡ true)
      & IsPrintable l.dir

module _ (parse_duration : Text → Option ℤ) where
  abbrev pub IsDuration : Text → Type 0
  IsDuration s = s ≢ [] → is_parsed (parse_duration s) ≡ true

  abbrev pub IsServer : ServerConfig → Type 0
  IsServer s = IsDuration s.timeout & IsDuration s.async_ack_timeout

  -- Between 0 and 2 ^ 31 - 1 milliseconds.
  abbrev pub IsThrottle : Option ℤ → Type 0
  IsThrottle o = (n : ℕ) × (o ≡ some (pos n)) × (n / 1000000 ≤ 2147483647)

  abbrev pub IsRtd : Unicode → RtdConfig → Type 0
  IsRtd u r =
      (r.enabled ≡ true → r.prog_id ≢ [])
      & (r.prog_id ≢ [] → IsProgId u r.prog_id)
      & (r.clsid ≢ [] → clsid_pattern r.clsid ≡ true)
      & (r.throttle_interval ≢ []
          → (r.enabled ≡ true) & IsThrottle (parse_duration r.throttle_interval))

  abbrev pub IsChunk : Option ChunkConfig → Type 0
  IsChunk none = Unit
  IsChunk (some c) =
      (is_negative c.max_buffer_bytes ≡ false)
      & IsDuration c.cleanup_interval
      & IsDuration c.buffer_ttl
      & (is_negative c.max_concurrent_transfers ≡ false)

module _ (u : Unicode) where
  -- Its command is declared, and its image and size are known.
  abbrev pub IsButton : List Text → RibbonButton → Type 0
  IsButton cmd_names btn =
      (btn.command ≢ [])
      & (mem btn.command cmd_names ≡ true)
      & (btn.image ≢ [] → image_reason u (classify_ribbon_image u btn.image) ≡ none)
      & ((btn.size == [] || is btn.size "normal" || is btn.size "large") ≡ true)

  abbrev pub IsRibbon : List Command → RibbonConfig → Type 0
  IsRibbon cmds r =
      (cmds ≢ [])
      & (r.prog_id ≢ [] → IsProgId u r.prog_id)
      & (r.clsid ≢ [] → clsid_pattern r.clsid ≡ true)
      & ((r.bounce == [] || is r.bounce "full" || is r.bounce "keep-open" || is r.bounce "off")
          ≡ true)
      & (r.xml ≢ [] → (r.tab ≡ []) & (r.groups ≡ []))
      & All (λ g. All (IsButton (map (λ cmd. cmd.name) cmds)) g.buttons) r.groups

  -- Without a tab and an XML file there are no groups.
  abbrev pub IsUi : List Command → RibbonConfig → Type 0
  IsUi cmds r =
      (ribbon_enabled r ≡ true → IsRibbon cmds r) & (ribbon_enabled r ≡ false → r.groups ≡ [])

  abbrev pub IsConfig : (Text → Option ℤ) → Config → Type 0
  IsConfig parse_duration c =
      IsProjectName c.project.name
      & (c.gen.go.pkg ≢ [] → IsPackage c.gen.go.pkg)
      & IsBuild c.build
      & (All IsEvent c.events & AllDistinct (map (λ evt. evt.type) c.events))
      & All (HasTypes u) c.functions
      & IsLogging u c.logging
      & (All (HasMode u parse_duration c.rtd.enabled) c.functions
          & AllDistinct (map (λ fn. fn.name) c.functions))
      & IsServer parse_duration c.server
      & IsRtd parse_duration u c.rtd
      & IsChunk parse_duration c.server.chunk
      & HasCommands u (map (λ fn. fn.name) c.functions) c.commands
      & IsUi c.commands c.ribbon
