-- ===== src/Runtime/Provenance.antt =====
-- internal/runtime/runtime.go: mergeProvenance and agentStrategyMetadata. Two plugins are told apart by
-- the texts of their family and their logical id.
pub mod Merged
mod Samples
use zheng_harness.Base.{
  String, Bool, true, false, ◌&&◌, Option, none, some, List, [], ◌∷◌, ◌++◌, ◌==◌, if◌then◌else◌,
}
use zheng_harness.Domain.Types.{PluginMetadata, Provenance}
use zheng_harness.Domain.PluginMetadata.{
  MetadataError, PluginKey, key_of, same_key, family_text, mode_text, normalize, validate,
  normalize_provenance, validate_provenance,
}
use zheng_harness.Domain.PluginMetadata.Checked.{has_key}

abbrev pub plugins_of : Option Provenance → List PluginMetadata
plugins_of none = []
plugins_of (some p) = (normalize_provenance p).plugins

-- `existing` unless `checked` is nil.
abbrev pub unless_error :
    {E : Type 0} → Option E → Option Provenance → Option Provenance → Option Provenance
unless_error none existing result = result
unless_error (some e) existing result = existing

abbrev pub extended : Option Provenance → PluginMetadata → Provenance
extended existing normalized =
    normalize_provenance (record { plugins = plugins_of existing ++ normalized ∷ [] })

-- The part of mergeProvenance after the new plugin was normalised and checked.
abbrev pub merge_normalized : Option Provenance → PluginMetadata → Option Provenance
merge_normalized none normalized =
    unless_error (validate_provenance (extended none normalized)) none
      (some (extended none normalized))
merge_normalized (some p) normalized =
    if has_key (normalize_provenance p).plugins (key_of normalized)
    then some (normalize_provenance p)
    else unless_error (validate_provenance (extended (some p) normalized)) (some p)
        (some (extended (some p) normalized))

unfoldable pub merge_provenance : Option Provenance → PluginMetadata → Option Provenance
merge_provenance existing metadata =
    unless_error (validate (normalize metadata)) existing
      (merge_normalized existing (normalize metadata))

abbrev is_builtin : PluginMetadata → Bool
is_builtin m =
    family_text m.family == "agent_strategy"
    && m.logical_id == "host_default"
    && mode_text m.execution_mode == "native"
    && m.source_path == "builtin://runtime/model"

-- agentStrategyMetadata, on what the strategy says of itself.
unfoldable pub agent_strategy_metadata : PluginMetadata → Option PluginMetadata
agent_strategy_metadata m =
    let metadata = normalize m in
    elim (validate metadata) [
      | none ↦ if is_builtin metadata then none else some metadata
      | some _ ↦ none
    ]
