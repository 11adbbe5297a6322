-- ===== src/Plugin/Manager.antt =====
-- internal/plugin/manager.go: the state of the PluginManager, and what answers it from outside.
-- LoadedPlugins and loadedPaths are written only after a nil map was replaced, so nil is the empty
-- list; so is a nil `unavailable`. Load writes `failureCounts` without that check, so a nil map is
-- told apart: `none`. The wrapper managedPlugin holds the tool alone and is left out. One operation
-- runs at a time: an interleaving of two calls for one plugin is not modelled.
pub mod Loading
pub mod Lifecycle
pub mod Recovery
use zheng_harness.Base.{
  ℕ, zero, suc, ◌+◌, String, Bool, true, false, Option, none, some, List, [], ◌∷◌, ◌==◌,
  if◌then◌else◌, ◌≡◌,
}
use zheng_harness.Base.Maps.{update, lookup, delete}
use zheng_harness.Domain.Types.{Err, ToolCall, ToolResult}
use zheng_harness.Plugin.Version.{ContractError}
use zheng_harness.Tools.Capabilities.{CapabilityError}

-- A loaded tool. `instance_id` tells two loads of one artifact apart.
pub record PluginTool : Type 0 where
  pub name : String
  pub capabilities : List String
  pub contract_version : String
  pub has_health_check : Bool
  pub instance_id : ℕ

pub data PluginType : Type 0 where
  native external : PluginType

pub record DiscoveredPlugin : Type 0 where
  pub path : String
  pub type : PluginType

pub record DirEntry : Type 0 where
  pub name : String
  pub is_dir : Bool

pub data PluginError : Type 0 where
  plugin_unavailable : String → PluginError
  plugin_not_found empty_path empty_discovery_path : PluginError
  context_error : Err → PluginError
  read_directory_failed : Err → PluginError
  load_failed : PluginType → Err → PluginError
  contract_error : ContractError → PluginError
  capability_error : String → CapabilityError → PluginError
  close_failed : Err → PluginError
  tool_error : Err → PluginError
  reload_failed : Err → PluginError → PluginError
  missing_after_reload : Err → PluginError

-- A value or an error, as `(value, error)` results are used.
pub data Fallible (A : Type 0) : Type 0 where
  ok : A → Fallible A
  err : PluginError → Fallible A

pub record PluginManager : Type 0 where
  pub discovery_path : String
  pub plugin_capabilities : List String
  pub loaded_plugins : List (String × PluginTool)
  pub loaded_paths : List (String × String)
  pub failure_counts : Option (String → ℕ)
  pub unavailable : String → Bool

-- What the operating system and the plugins answer, over a state of theirs.
pub record Host (W : Type 0) : Type 0 where
  pub execute : PluginTool → ToolCall → W → (ToolResult × Option Err) × W
  pub health_check : PluginTool → W → Option Err × W
  pub load_external : String → W → (Option PluginTool × Option Err) × W
  pub load_native : String → W → (Option PluginTool × Option Err) × W
  pub close : PluginTool → W → Option Err × W
  pub read_dir : String → W → (List DirEntry × Option Err) × W
  pub join : String → String → String

unfoldable pub new_manager : String → PluginManager
new_manager discovery_path = record {
  discovery_path = discovery_path;
  plugin_capabilities = [];
  loaded_plugins = [];
  loaded_paths = [];
  failure_counts = some (λ _. 0);
  unavailable = λ _. false;
}

-- m.failureCounts[name], a nil map reading as zero.
abbrev pub count_of : Option (String → ℕ) → String → ℕ
count_of none name = 0
count_of (some counts) name = counts name

unfoldable pub failure_count : PluginManager → String → ℕ
failure_count m name = count_of m.failure_counts name

unfoldable pub is_unavailable : PluginManager → String → Bool
is_unavailable m name = m.unavailable name

-- A write that first replaces a nil map.
abbrev pub set_count : Option (String → ℕ) → String → ℕ → Option (String → ℕ)
set_count none name n = some (update (λ _. 0) name n)
set_count (some counts) name n = some (update counts name n)

unfoldable pub increment_failure_count : String → PluginManager → PluginManager × ℕ
increment_failure_count name m =
    let n = count_of m.failure_counts name + 1 in
    (record m { failure_counts = set_count m.failure_counts name n }, n)

unfoldable pub reset_failure_count : String → PluginManager → PluginManager
reset_failure_count name m = record m {
  failure_counts = set_count m.failure_counts name 0;
  unavailable = update m.unavailable name false;
}

unfoldable pub mark_unavailable : String → PluginManager → PluginManager
mark_unavailable name m = record m { unavailable = update m.unavailable name true }

-- lookupManagedPlugin: the tool, and whether it is marked unavailable.
unfoldable pub lookup_managed_plugin : PluginManager → String → Option PluginTool × Bool
unfolding lookup
lookup_managed_plugin m name =
    if m.unavailable name then (none, true) else (lookup name m.loaded_plugins, false)
