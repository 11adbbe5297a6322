-- ===== src/Domain/PluginMetadata/Samples.antt =====
-- A plugin's metadata as a program may give it, and the theorems about it.
use zheng_harness.Base.Text.{trim_space}
use zheng_harness.Base.{true, false, some, ◌≡◌, refl}
use zheng_harness.Domain.Types.{PluginFamily, PluginMetadata, tool, external}
use zheng_harness.Domain.PluginMetadata.{matches_version, stored}
use zheng_harness.Domain.PluginMetadata.Trimmed.{stored_again}

versions :
    (matches_version "1.0.10" ≡ true)
    × (matches_version "1.0.0-rc.1+build" ≡ true)
    × (matches_version "01.0.0" ≡ false)
    × (matches_version "1.0" ≡ false)
    × (matches_version "1.0.0-" ≡ false)
unfolding matches_version
versions = (refl, refl, refl, refl, refl)

abbrev given : PluginMetadata
given = record {
  family = PluginFamily.other " tool ";
  logical_id = " grep";
  display_name = "Grep";
  contract_version = "1.0.0 ";
  implementation_version = "";
  execution_mode = external;
  source_path = "";
}

abbrev kept : PluginMetadata
kept = record given { family = tool; logical_id = "grep"; contract_version = "1.0.0" }

stored-given : stored given ≡ some kept
unfolding stored trim_space
stored-given = refl

stored_again_example : stored kept ≡ some kept
stored_again_example = stored_again given kept stored-given
