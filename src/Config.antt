-- ===== src/Config.antt =====
-- internal/config/config.go: the configuration of a project, as xll.yaml gives it.
pub mod Words
pub mod ExcelNames
pub mod Names
pub mod Iff
pub mod Valid
pub mod Functions
pub mod Checks
pub mod Commands
pub mod Validate
pub mod Defaults
pub mod Runs
use xll_gen.Prelude.{ℕ, Bool, List, Option, ℤ, Text}

pub record ProjectConfig : Type 0 where
  pub name : Text
  pub version : Text

pub record BuildConfig : Type 0 where
  pub singlefile : Text
  pub temp_dir : Text

pub record LoggingConfig : Type 0 where
  pub level : Text
  pub dir : Text

pub record CacheConfig : Type 0 where
  pub enabled : Bool
  pub ttl : Text
  pub jitter : Text

pub record ChunkConfig : Type 0 where
  pub max_buffer_bytes : ℤ
  pub cleanup_interval : Text
  pub buffer_ttl : Text
  pub max_concurrent_transfers : ℤ

-- A pointer is an option.
pub record LaunchConfig : Type 0 where
  pub enabled : Option Bool
  pub command : Text
  pub cwd : Text

pub record ServerConfig : Type 0 where
  pub command : Text
  pub workers : ℤ
  pub timeout : Text
  pub async_ack_timeout : Text
  pub launch : Option LaunchConfig
  pub chunk : Option ChunkConfig

pub record GoConfig : Type 0 where
  pub go_module : Text
  pub pkg : Text

pub record GenConfig : Type 0 where
  pub go : GoConfig
  pub disable_pid_suffix : Bool

pub record Arg : Type 0 where
  pub name : Text
  pub type : Text
  pub description : Text

pub record FunctionCacheConfig : Type 0 where
  pub enabled : Option Bool
  pub ttl : Text

pub record Function : Type 0 where
  pub name : Text
  pub description : Text
  pub args : List Arg
  pub return : Text
  pub is_async : Bool
  pub resizable : Bool
  pub volatile : Bool
  pub category : Text
  pub shortcut : Text
  pub help_topic : Text
  pub timeout : Text
  pub caller : Bool
  pub macro : Bool
  pub mode : Text
  pub memoize : Bool
  pub memoize_ttl : Text
  pub loading_placeholder : Text
  pub cache : Option FunctionCacheConfig

pub record Event : Type 0 where
  pub type : Text
  pub handler : Text

pub record RtdConfig : Type 0 where
  pub enabled : Bool
  pub prog_id : Text
  pub clsid : Text
  pub description : Text
  pub throttle_interval : Text
  pub loading_placeholder : Text

pub record Command : Type 0 where
  pub name : Text
  pub description : Text
  pub handler : Text
  pub shortcut : Text

pub record RibbonButton : Type 0 where
  pub label : Text
  pub command : Text
  pub size : Text
  pub image : Text

pub record RibbonGroup : Type 0 where
  pub label : Text
  pub buttons : List RibbonButton

pub record RibbonConfig : Type 0 where
  pub tab : Text
  pub groups : List RibbonGroup
  pub xml : Text
  pub prog_id : Text
  pub clsid : Text
  pub bounce : Text

pub record Config : Type 0 where
  pub project : ProjectConfig
  pub build : BuildConfig
  pub logging : LoggingConfig
  pub cache : CacheConfig
  pub server : ServerConfig
  pub functions : List Function
  pub gen : GenConfig
  pub events : List Event
  pub rtd : RtdConfig
  pub commands : List Command
  pub ribbon : RibbonConfig
