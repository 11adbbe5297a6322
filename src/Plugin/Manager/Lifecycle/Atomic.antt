-- ===== src/Plugin/Manager/Lifecycle/Atomic.antt =====
-- ReloadTool replaces a plugin whole or leaves the manager as it was.
use zheng_harness.Base.{
  String, false, Option, none, some, ◌==◌, ◌≡◌, refl, inl, inr, arith, Option-cases, str_eq_refl,
}
use zheng_harness.Base.Maps.{lookup, delete, lookup-delete}
use zheng_harness.Plugin.Manager.{
  PluginTool, PluginError, PluginManager, Fallible, ok, err, Host, failure_count, is_unavailable,
}
use zheng_harness.Plugin.Manager.Loading.{load_plugin}
use zheng_harness.Plugin.Manager.Lifecycle.{
  replace, swap, swap_loaded, load_at, reload_path, reload_tool,
}

-- The manager `m'` has, in place of the plugin `name` of `m`, the tool that was loaded, under the
-- tool's own name, and everything else as before.
pub record Reloaded {W : Type 0} (host : Host W) (name : String) (m : PluginManager) (w : W)
    (m' : PluginManager) : Type 0 where
  pub existing : PluginTool
  pub tool : PluginTool
  pub path : String
  pub found_at : W
  pub loaded_at : W
  pub known : lookup name m.loaded_plugins ≡ some existing
  pub found : reload_path host m name w ≡ (ok path, found_at)
  pub loads : load_plugin host m path found_at ≡ (ok tool, loaded_at)
  pub closes : (host.close existing loaded_at).0 ≡ none
  pub tracked : lookup tool.name m'.loaded_plugins ≡ some tool
  pub stored : lookup tool.name m'.loaded_paths ≡ some path
  pub dropped :
      (tool.name == name) ≡ false
      → (lookup name m'.loaded_plugins ≡ none) × (lookup name m'.loaded_paths ≡ none)
  pub others :
      (other : String)
      → (name == other) ≡ false
      → (tool.name == other) ≡ false
      → (lookup other m'.loaded_plugins ≡ lookup other m.loaded_plugins)
        × (lookup other m'.loaded_paths ≡ lookup other m.loaded_paths)
  pub count : failure_count m' tool.name ≡ failure_count m name
  pub available : is_unavailable m' tool.name ≡ false

-- What a reload of `name` may leave of the manager `m`, by its error.
abbrev pub ReloadOutcome :
    {W : Type 0} → Host W → String → PluginManager → W → PluginManager × Option PluginError → Type 0
ReloadOutcome host name m w (m', some e) = m' ≡ m
ReloadOutcome host name m w (m', none) = Reloaded host name m w m'

pub replace-count :
    (name : String) (tool : PluginTool) (path : String) (m : PluginManager)
    → failure_count (replace name tool path m) tool.name ≡ failure_count m name
unfolding replace failure_count
replace-count name tool path m = ground (arith, str_eq_refl tool.name)

pub replace-tracked :
    (name : String) (tool : PluginTool) (path : String) (m : PluginManager)
    → lookup tool.name (replace name tool path m).loaded_plugins ≡ some tool
unfolding replace lookup
replace-tracked name tool path m = rw (str_eq_refl tool.name)

pub replace-available :
    (name : String) (tool : PluginTool) (path : String) (m : PluginManager)
    → is_unavailable (replace name tool path m) tool.name ≡ false
unfolding replace is_unavailable
replace-available name tool path m = rw (str_eq_refl tool.name)

module _ (name : String) (tool : PluginTool) (path : String) (m : PluginManager) where
  replace-stored : lookup tool.name (replace name tool path m).loaded_paths ≡ some path
  unfolding replace lookup
  replace-stored = rw (str_eq_refl tool.name)

  replace-dropped :
      (tool.name == name) ≡ false
      → (lookup name (replace name tool path m).loaded_plugins ≡ none)
        × (lookup name (replace name tool path m).loaded_paths ≡ none)
  unfolding replace lookup
  replace-dropped renamed = (
    ground (
      arith,
      renamed,
      lookup-delete tool.name name (delete name m.loaded_plugins),
      lookup-delete name name m.loaded_plugins,
      str_eq_refl name,
    ),
    ground (
      arith,
      renamed,
      lookup-delete tool.name name (delete name m.loaded_paths),
      lookup-delete name name m.loaded_paths,
      str_eq_refl name,
    ),
  )

  replace-others :
      (other : String)
      → (name == other) ≡ false
      → (tool.name == other) ≡ false
      → (lookup other (replace name tool path m).loaded_plugins ≡ lookup other m.loaded_plugins)
        × (lookup other (replace name tool path m).loaded_paths ≡ lookup other m.loaded_paths)
  unfolding replace lookup
  replace-others other apart apart' = (
    ground (
      arith,
      apart,
      apart',
      lookup-delete tool.name other (delete name m.loaded_plugins),
      lookup-delete name other m.loaded_plugins,
    ),
    ground (
      arith,
      apart,
      apart',
      lookup-delete tool.name other (delete name m.loaded_paths),
      lookup-delete name other m.loaded_paths,
    ),
  )

module _ {W : Type 0} (host : Host W) (name : String) (m : PluginManager) (w : W)
    (existing : PluginTool) (known : lookup name m.loaded_plugins ≡ some existing) where
  swap-outcome :
      (tool : PluginTool) (path : String) (w1 w2 : W)
      → reload_path host m name w ≡ (ok path, w1)
      → load_plugin host m path w1 ≡ (ok tool, w2)
      → ReloadOutcome host name m w (swap host name existing tool path m w2).0
  unfolding swap
  swap-outcome tool path w1 w2 found loads = elim (Option-cases (host.close existing w2).0) [
    | inl done ↦
        rw (done, swap)
          (record {
            existing = existing;
            tool = tool;
            path = path;
            found_at = w1;
            loaded_at = w2;
            known = known;
            found = found;
            loads = loads;
            closes = done;
            tracked = replace-tracked name tool path m;
            stored = replace-stored name tool path m;
            dropped = replace-dropped name tool path m;
            others = replace-others name tool path m;
            count = replace-count name tool path m;
            available = replace-available name tool path m;
          })
    | inr (e, bad) ↦ rw (bad, swap) refl
  ]

  swap_loaded-outcome :
      (path : String) (w1 : W) (answer : Fallible PluginTool × W)
      → reload_path host m name w ≡ (ok path, w1)
      → load_plugin host m path w1 ≡ answer
      → ReloadOutcome host name m w (swap_loaded host name existing path m answer).0
  unfolding swap_loaded
  swap_loaded-outcome path w1 (err e, w2) found loads = refl
  swap_loaded-outcome path w1 (ok tool, w2) found loads = swap-outcome tool path w1 w2 found loads

  load_at-outcome :
      (answer : Fallible String × W)
      → reload_path host m name w ≡ answer
      → ReloadOutcome host name m w (load_at host name existing m answer).0
  unfolding load_at
  load_at-outcome (err e, w1) found = refl
  load_at-outcome (ok path, w1) found =
      swap_loaded-outcome path w1 (load_plugin host m path w1) found refl

module _ {W : Type 0} (host : Host W) (name : String) (m : PluginManager) where
  -- A reload that fails, at whatever point, leaves the manager as it was. One that succeeds has loaded a
  -- tool from the path that it found for the old name and closed the old plugin; the manager then
  -- tracks that tool and its path under the tool's own name, available and with the failure count of
  -- the old name, has nothing under the old name where that is another, and all other plugins as before.
  pub reload_tool-outcome : (w : W) → ReloadOutcome host name m w (reload_tool host name m w).0
  unfolding reload_tool
  reload_tool-outcome w = elim (Option-cases (lookup name m.loaded_plugins)) [
    | inl missing ↦ rw (missing, reload_tool) refl
    | inr (existing, found) ↦
        simp (found, reload_tool)
          (load_at-outcome host name m w existing found (reload_path host m name w) refl)
  ]
