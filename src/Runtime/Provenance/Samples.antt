-- ===== src/Runtime/Provenance/Samples.antt =====
-- Merging a provider into a provenance that holds a tool.
use zheng_harness.Base.Text.{trim_space}
use zheng_harness.Base.{Option, none, some, [], ◌∷◌, ◌≡◌, refl}
use zheng_harness.Domain.Types.{PluginMetadata, Provenance, tool, provider, external}
use zheng_harness.Domain.PluginMetadata.{key_of, validate, validate_provenance}
use zheng_harness.Runtime.Provenance.{merge_provenance}
use zheng_harness.Runtime.Provenance.Merged.{
  IsSound, Recorded, merge_provenance-IsSound, merge_provenance-Recorded,
}

abbrev grep : PluginMetadata
grep = record {
  family = tool;
  logical_id = "grep";
  display_name = "Grep";
  contract_version = "1.0.0";
  implementation_version = "";
  execution_mode = external;
  source_path = "";
}

abbrev model : PluginMetadata
model = record grep { family = provider; logical_id = " model" }

abbrev before : Option Provenance
before = some (record { plugins = grep ∷ [] })

before-IsSound : IsSound before
unfolding validate_provenance trim_space
before-IsSound = refl

model_valid : validate model ≡ none
unfolding validate trim_space
model_valid = refl

merge_provenance-IsSound_example : IsSound (merge_provenance before model)
merge_provenance-IsSound_example = merge_provenance-IsSound before model before-IsSound

merge_provenance-Recorded_example :
    Recorded before model (merge_provenance before model) (key_of grep)
merge_provenance-Recorded_example =
    merge_provenance-Recorded before model (key_of grep) before-IsSound model_valid
