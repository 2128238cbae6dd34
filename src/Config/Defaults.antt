-- ===== src/Config/Defaults.antt =====
-- ApplyDefaults of internal/config/config.go, and the accessors and predicates that generators ask.
-- `uuid_dns` is uuid.NewSHA1 in the DNS name space, printed.
pub mod Modes
pub mod Kept
pub mod Ribbon
pub mod Whole
use Prim.Native.String.{String}
use xll_gen.Prelude.{
  Bool, true, false, not, ◌&&◌, ◌||◌, List, [], ◌∷◌, ◌++◌, Option, none, some, map, if◌then◌else◌,
  ◌==◌, text_eq, Text, codes, Unicode, to_lower, trim_space,
}
use xll_gen.Config
use xll_gen.Config.{
  Config, BuildConfig, LoggingConfig, LaunchConfig, ServerConfig, Function, Event, RtdConfig,
  Command, RibbonButton, RibbonGroup, RibbonConfig,
}
use xll_gen.Config.Functions.{is}
use xll_gen.Config.Commands.{ribbon_enabled}

-- `if s == "" { s = d }`.
abbrev pub or_default : Text → Text → Text
or_default s d = if s == [] then d else s

abbrev pub logging_defaults : LoggingConfig → LoggingConfig
logging_defaults l = record l { level = or_default l.level (codes "info") }

-- The mode in lower case; an empty one follows the legacy flag, and otherwise the flag follows it.
unfoldable pub function_defaults : Unicode → Function → Function
function_defaults u fn =
    let m = to_lower u fn.mode in
    record fn {
      mode = if m == [] then (if fn.is_async then codes "async" else codes "sync") else m;
      is_async = if m == [] then fn.is_async else is m "async";
    }

abbrev pub launch_defaults : Option LaunchConfig → LaunchConfig
launch_defaults none = record { enabled = some true; command = []; cwd = [] }
launch_defaults (some l) = elim l.enabled [ none ↦ record l { enabled = some true } | some b ↦ l ]

abbrev pub command_defaults : Command → Command
command_defaults cmd = record cmd { handler = or_default cmd.handler cmd.name }

abbrev pub event_defaults : Event → Event
event_defaults evt = record evt { handler = or_default evt.handler (codes "On" ++ evt.type) }

abbrev pub button_defaults : RibbonButton → RibbonButton
button_defaults btn = record btn { size = or_default btn.size (codes "normal") }

abbrev pub group_defaults : RibbonGroup → RibbonGroup
group_defaults g = record g { buttons = map button_defaults g.buttons }

module _ (uuid_dns : Text → Text) where
  abbrev pub clsid_of : Text → Text
  clsid_of prog_id = b'{' ∷ (uuid_dns prog_id ++ (b'}' ∷ []))

  unfoldable pub rtd_defaults : RtdConfig → RtdConfig
  rtd_defaults r =
      if r.enabled
      then record r {
        description = or_default r.description r.prog_id;
        clsid = if (r.clsid == []) && not (r.prog_id == []) then clsid_of r.prog_id else r.clsid;
      }
      else r

  unfoldable pub ribbon_defaults : Text → RibbonConfig → RibbonConfig
  ribbon_defaults project r =
      let id = or_default r.prog_id (project ++ codes ".Ribbon") in
      if ribbon_enabled r
      then record r {
        prog_id = id;
        clsid = or_default r.clsid (clsid_of id);
        groups = map group_defaults r.groups;
      }
      else r

  unfoldable pub apply_defaults : Unicode → Config → Config
  apply_defaults u c = record c {
    functions = map (function_defaults u) c.functions;
    build = record (c.build) { temp_dir = or_default c.build.temp_dir (codes "${TEMP}") };
    gen = record (c.gen) {
      go = record (c.gen.go) { pkg = or_default c.gen.go.pkg (codes "generated") };
    };
    server = record (c.server) { launch = some (launch_defaults c.server.launch) };
    logging = logging_defaults c.logging;
    rtd = rtd_defaults c.rtd;
    commands = map command_defaults c.commands;
    events = map event_defaults c.events;
    ribbon = ribbon_defaults c.project.name c.ribbon;
  }

abbrev pub go_package : Config → Text
go_package c = or_default c.gen.go.pkg (codes "generated")

abbrev pub bounce_mode : RibbonConfig → Text
bounce_mode r = or_default r.bounce (codes "full")

abbrev pub is_rtd_like : Text → Bool
is_rtd_like mode = is mode "rtd" || is mode "rtd-once"

abbrev pub any_non_rtd_like : List Function → Bool
any_non_rtd_like [] = false
any_non_rtd_like (f ∷ fns) = not (is_rtd_like f.mode) || any_non_rtd_like fns

pub data RtdPlaceholder : Type 0 where
  placeholder_getting_data placeholder_na : RtdPlaceholder
  placeholder_text : Text → RtdPlaceholder

-- The function's own placeholder, or else the project's.
unfoldable pub resolve_rtd_placeholder : Unicode → Function → RtdConfig → RtdPlaceholder
resolve_rtd_placeholder u fn rtd =
    let v =
      or_default (trim_space u fn.loading_placeholder) (trim_space u rtd.loading_placeholder) in
    let key = to_lower u v in
    if key == []
    then placeholder_getting_data
    else if is key "getting_data"
    then placeholder_getting_data
    else if is key "na"
    then placeholder_na
    else placeholder_text v
