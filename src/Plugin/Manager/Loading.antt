-- ===== src/Plugin/Manager/Loading.antt =====
-- internal/plugin/manager.go: Discover and loadPlugin.
use Prim.Native.String.{compare}
use Prim.Native.Nat.{Ordering}
use zheng_harness.Base.{
  String, Bool, true, false, Option, none, some, List, [], ◌∷◌, ◌==◌, if◌then◌else◌,
}
use zheng_harness.Base.Text.{trim_space, equal_fold, extension}
use zheng_harness.Domain.Types.{Err}
use zheng_harness.Plugin.Version.{nil_tool, validate_contract}
use zheng_harness.Tools.Capabilities.{validate_plugin_capabilities}
use zheng_harness.Plugin.Manager.{
  PluginTool, PluginType, native, external, DiscoveredPlugin, DirEntry, PluginError,
  empty_discovery_path, read_directory_failed, load_failed, contract_error, capability_error,
  PluginManager, Fallible, ok, err, Host,
}

unfoldable pub is_native_plugin_path : String → Bool
unfolding extension equal_fold
is_native_plugin_path path = equal_fold (extension path) ".so"

abbrev path_lt : DiscoveredPlugin → DiscoveredPlugin → Bool
path_lt a b = elim (compare a.path b.path) [ Ordering.lt ↦ true | _ ↦ false ]

abbrev insert_plugin : DiscoveredPlugin → List DiscoveredPlugin → List DiscoveredPlugin
insert_plugin p [] = p ∷ []
insert_plugin p (q ∷ rest) =
    let later = insert_plugin p rest in if path_lt q p then q ∷ later else p ∷ q ∷ rest

-- `sort.Slice` by path. The paths of one directory differ, so no tie is broken.
abbrev sort_plugins : List DiscoveredPlugin → List DiscoveredPlugin
sort_plugins [] = []
sort_plugins (p ∷ rest) = insert_plugin p (sort_plugins rest)

-- The checks on a loaded tool; what a refused tool answers to Close is dropped.
unfoldable pub vet : PluginManager → PluginTool → Option PluginError
unfolding validate_contract validate_plugin_capabilities
vet m tool = elim (validate_contract tool.contract_version) [
  | some e ↦ some (contract_error e)
  | none ↦ elim (validate_plugin_capabilities m.plugin_capabilities tool.capabilities) [
    | some e ↦ some (capability_error tool.name e)
    | none ↦ none
  ]
]

module _ {W : Type 0} (host : Host W) where
  unfoldable pub classify_entries : String → List DirEntry → List DiscoveredPlugin
  unfolding is_native_plugin_path
  classify_entries dir [] = []
  classify_entries dir (entry ∷ entries) =
      let rest = classify_entries dir entries in
      let path = host.join dir entry.name in
      if entry.is_dir
      then rest
      else record { path = path; type = if is_native_plugin_path path then native else external }
        ∷ rest

  abbrev listed : String → List DirEntry × Option Err → Fallible (List DiscoveredPlugin)
  listed dir (entries, some e) = err (read_directory_failed e)
  listed dir (entries, none) = ok (sort_plugins (classify_entries dir entries))

  unfoldable pub discover : PluginManager → W → Fallible (List DiscoveredPlugin) × W
  unfolding trim_space classify_entries
  discover m w =
      if trim_space m.discovery_path == ""
      then (err empty_discovery_path, w)
      else (let (answer, w') = host.read_dir m.discovery_path w in
          (listed m.discovery_path answer, w'))

  abbrev pub Loaded : Type 0
  Loaded = Fallible PluginTool × W

  -- What loadPlugin does with the loader's answer.
  unfoldable pub vet_loaded :
      PluginType → PluginManager → Option PluginTool × Option Err → W → Loaded
  unfolding vet
  vet_loaded type m (tool, some e) w = (err (load_failed type e), w)
  vet_loaded type m (none, none) w = (err (contract_error nil_tool), w)
  vet_loaded type m (some tool, none) w = elim (vet m tool) [
    | none ↦ (ok tool, w)
    | some e ↦ (err e, (host.close tool w).1)
  ]

  unfoldable pub load_plugin : PluginManager → String → W → Loaded
  unfolding vet_loaded is_native_plugin_path
  load_plugin m path w =
      if is_native_plugin_path path
      then (let (answer, w') = host.load_native path w in vet_loaded native m answer w')
      else (let (answer, w') = host.load_external path w in vet_loaded external m answer w')
