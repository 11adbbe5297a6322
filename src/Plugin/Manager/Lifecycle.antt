-- ===== src/Plugin/Manager/Lifecycle.antt =====
-- internal/plugin/manager.go: Load, ReloadTool and CloseAll. Locks are held to the end of each.
pub mod Atomic
use Prim.Native.String.{compare}
use Prim.Native.Nat.{Ordering}
use zheng_harness.Base.{
  ℕ, zero, suc, ◌+◌, String, Bool, true, false, Option, none, some, List, [], ◌∷◌, ◌++◌, map, ◌==◌,
  if◌then◌else◌,
}
use zheng_harness.Base.Text.{trim_space, base_name}
use zheng_harness.Base.Maps.{update, lookup, delete}
use zheng_harness.Domain.Types.{Err}
use zheng_harness.Plugin.Manager.{
  PluginTool, DiscoveredPlugin, PluginError, plugin_not_found, empty_path, context_error,
  close_failed, PluginManager, Fallible, ok, err, Host, count_of, set_count,
}
use zheng_harness.Plugin.Manager.Loading.{discover, load_plugin}

-- What Load and ReloadTool record of a tool, with the failure count that it starts with.
unfoldable pub track : PluginTool → String → PluginManager → PluginManager
unfolding delete
track tool path m = record m {
  loaded_plugins = (tool.name, tool) ∷ delete tool.name m.loaded_plugins;
  loaded_paths = (tool.name, path) ∷ delete tool.name m.loaded_paths;
  unavailable = update m.unavailable tool.name false;
}

pub data LoadResult : Type 0 where
  panicked : LoadResult
  failed : PluginError → LoadResult
  loaded : PluginTool → LoadResult

-- The write `m.failureCounts[tool.Name()] = 0` panics where the map is nil.
unfoldable pub install : PluginTool → String → PluginManager → PluginManager × LoadResult
unfolding track
install tool path m = elim m.failure_counts [
  | none ↦ (m, panicked)
  | some counts ↦ (
    record (track tool path m) { failure_counts = some (update counts tool.name 0) },
    loaded tool,
  )
]

abbrev install_answer : String → PluginManager → Fallible PluginTool → PluginManager × LoadResult
install_answer path m (err e) = (m, failed e)
install_answer path m (ok tool) = install tool path m

unfoldable pub find_base : String → List DiscoveredPlugin → Option String
unfolding base_name
find_base base [] = none
find_base base (p ∷ rest) =
    let later = find_base base rest in if base_name p.path == base then some p.path else later

abbrev path_or_missing : Option String → Fallible String
path_or_missing none = err plugin_not_found
path_or_missing (some path) = ok path

-- loadedPaths[name], the empty text where it is missing.
abbrev stored_path : PluginManager → String → String
stored_path m name = elim (lookup name m.loaded_paths) [ none ↦ "" | some path ↦ path ]

abbrev found_path : PluginManager → String → Fallible (List DiscoveredPlugin) → Fallible String
found_path m name (err e) = err e
found_path m name (ok plugins) =
    if stored_path m name == ""
    then err plugin_not_found
    else path_or_missing (find_base (base_name (stored_path m name)) plugins)

-- The deletions of ReloadTool: every trace of the old name.
abbrev forget_count : Option (String → ℕ) → String → Option (String → ℕ)
forget_count none name = none
forget_count (some counts) name = some (update counts name 0)

unfoldable pub forget : String → PluginManager → PluginManager
unfolding delete
forget name m = record m {
  loaded_plugins = delete name m.loaded_plugins;
  loaded_paths = delete name m.loaded_paths;
  failure_counts = forget_count m.failure_counts name;
  unavailable = update m.unavailable name false;
}

-- The end of ReloadTool, once the old plugin is closed.
unfoldable pub replace : String → PluginTool → String → PluginManager → PluginManager
unfolding forget track
replace name tool path m =
    let previous = count_of m.failure_counts name in
    let m' = track tool path (forget name m) in
    record m' { failure_counts = set_count m'.failure_counts tool.name previous }

module _ {W : Type 0} (host : Host W) where
  unfoldable pub load : Option Err → String → PluginManager → W → (PluginManager × LoadResult) × W
  unfolding trim_space load_plugin install
  load (some e) path m w = ((m, failed (context_error e)), w)
  load none path m w =
      if trim_space path == ""
      then ((m, failed empty_path), w)
      else let (answer, w') = load_plugin host m path w in (install_answer path m answer, w')

  unfoldable pub reload_path : PluginManager → String → W → Fallible String × W
  unfolding discover lookup find_base
  reload_path m name w = let (answer, w') = discover host m w in (found_path m name answer, w')

  -- Closing the old plugin, and the new one again where that fails.
  unfoldable pub swap :
      String
      → PluginTool
      → PluginTool
      → String
      → PluginManager
      → W
      → (PluginManager × Option PluginError) × W
  unfolding replace
  swap name existing tool path m w =
      let (closed, w') = host.close existing w in
      elim closed [
        | none ↦ ((replace name tool path m, none), w')
        | some e ↦ ((m, some (close_failed e)), (host.close tool w').1)
      ]

  unfoldable pub swap_loaded :
      String
      → PluginTool
      → String
      → PluginManager
      → Fallible PluginTool × W
      → (PluginManager × Option PluginError) × W
  unfolding swap
  swap_loaded name existing path m (err e, w) = ((m, some e), w)
  swap_loaded name existing path m (ok tool, w) = swap name existing tool path m w

  unfoldable pub load_at :
      String
      → PluginTool
      → PluginManager
      → Fallible String × W
      → (PluginManager × Option PluginError) × W
  unfolding swap_loaded load_plugin
  load_at name existing m (err e, w) = ((m, some e), w)
  load_at name existing m (ok path, w) =
      swap_loaded name existing path m (load_plugin host m path w)

  unfoldable pub reload_tool : String → PluginManager → W → (PluginManager × Option PluginError) × W
  unfolding lookup reload_path load_at
  reload_tool name m w = elim (lookup name m.loaded_plugins) [
    | none ↦ ((m, some plugin_not_found), w)
    | some existing ↦ load_at name existing m (reload_path m name w)
  ]

abbrev text_lt : String → String → Bool
text_lt a b = elim (compare a b) [ Ordering.lt ↦ true | _ ↦ false ]

abbrev insert_name : String × PluginTool → List (String × PluginTool) → List (String × PluginTool)
insert_name p [] = p ∷ []
insert_name p (q ∷ rest) =
    let later = insert_name p rest in if text_lt q.0 p.0 then q ∷ later else p ∷ q ∷ rest

-- The entries in the order of sortedPluginNames.
abbrev sorted_plugins : List (String × PluginTool) → List (String × PluginTool)
sorted_plugins [] = []
sorted_plugins (p ∷ rest) = insert_name p (sorted_plugins rest)

abbrev add_error : Option Err → List PluginError → List PluginError
add_error none errs = errs
add_error (some e) errs = close_failed e ∷ errs

module _ {W : Type 0} (host : Host W) where
  unfoldable pub close_each : List (String × PluginTool) → W → List PluginError × W
  close_each [] w = ([], w)
  close_each ((name, tool) ∷ rest) w =
      let (closed, w') = host.close tool w in
      let (errs, w'') = close_each rest w' in (add_error closed errs, w'')

  -- The errors stand for their errors.Join.
  unfoldable pub close_all : PluginManager → W → (PluginManager × List PluginError) × W
  unfolding close_each
  close_all m w =
      let (errs, w') = close_each (sorted_plugins m.loaded_plugins) w in
      (
        (
          record m {
            loaded_plugins = [];
            loaded_paths = [];
            failure_counts = some (λ _. 0);
            unavailable = λ _. false;
          },
          errs,
        ),
        w',
      )
