-- ===== src/Domain/PluginMetadata.antt =====
-- internal/domain/plugin_metadata.go: trimming and checking of plugin metadata and of lists of it. The
-- expression pluginVersionPattern is written as the automaton that it describes. The JSON text is
-- encoding/json's; what MarshalJSON encodes and what UnmarshalJSON stores are modelled.
pub mod Trimmed
pub mod Checked
mod Samples
use Prim.Native.Char.{Char, code}
use zheng_harness.Base.{
  ℕ, zero, suc, String, Bool, true, false, not, ◌&&◌, ◌||◌, Option, none, some, List, [], ◌∷◌, ◌==◌,
  ◌=ℕ◌, leb, if◌then◌else◌, map,
}
use zheng_harness.Base.Text.{trim_space}
use zheng_harness.Domain.Types.{
  PluginFamily, tool, provider, verifier, agent_strategy, PluginExecutionMode, external, native,
  PluginMetadata, Provenance,
}

pub data MetadataError : Type 0 where
  empty_family empty_logical_id empty_display_name empty_mode : MetadataError
  unknown_family : PluginFamily → MetadataError
  unknown_mode : PluginExecutionMode → MetadataError
  empty_version : String → MetadataError
  malformed_version : String → String → MetadataError
  duplicate_provenance : PluginFamily → String → MetadataError

abbrev pub family_text : PluginFamily → String
family_text tool = "tool"
family_text provider = "provider"
family_text verifier = "verifier"
family_text agent_strategy = "agent_strategy"
family_text (PluginFamily.other s) = s

abbrev pub family_of : String → PluginFamily
family_of s =
    if s == "tool"
    then tool
    else if s == "provider"
    then provider
    else if s == "verifier"
    then verifier
    else if s == "agent_strategy"
    then agent_strategy
    else PluginFamily.other s

abbrev pub mode_text : PluginExecutionMode → String
mode_text external = "external"
mode_text native = "native"
mode_text (PluginExecutionMode.other s) = s

abbrev pub mode_of : String → PluginExecutionMode
mode_of s =
    if s == "external"
    then external
    else if s == "native"
    then native
    else PluginExecutionMode.other s

unfoldable pub normalize_family : PluginFamily → PluginFamily
normalize_family f = family_of (trim_space (family_text f))

-- `f` is the family as it was given, for the message.
unfoldable pub check_family : PluginFamily → PluginFamily → Option MetadataError
check_family f (PluginFamily.other s) =
    if s == "" then some empty_family else some (unknown_family f)
check_family f _ = none

unfoldable pub validate_family : PluginFamily → Option MetadataError
unfolding normalize_family check_family
validate_family f = check_family f (normalize_family f)

unfoldable pub normalize_mode : PluginExecutionMode → PluginExecutionMode
normalize_mode m = mode_of (trim_space (mode_text m))

unfoldable pub check_mode : PluginExecutionMode → PluginExecutionMode → Option MetadataError
check_mode m (PluginExecutionMode.other s) =
    if s == "" then some empty_mode else some (unknown_mode m)
check_mode m _ = none

unfoldable pub validate_mode : PluginExecutionMode → Option MetadataError
unfolding normalize_mode check_mode
validate_mode m = check_mode m (normalize_mode m)

-- The automaton of pluginVersionPattern. `number_start k`, `number_zero k` and `number_more k` stand
-- before, after a zero of, and inside the number that k others follow.
pub data VersionState : Type 0 where
  number_start number_zero number_more : ℕ → VersionState
  dash_start dash_more plus_start plus_more dead : VersionState

abbrev is_digit : ℕ → Bool
is_digit n = leb b'0' n && leb n b'9'

-- [0-9A-Za-z.-]
abbrev is_suffix : ℕ → Bool
is_suffix n =
    is_digit n || (leb b'A' n && leb n b'Z') || (leb b'a' n && leb n b'z') || n =ℕ b'.' || n =ℕ b'-'

abbrev after_number : ℕ → ℕ → VersionState
after_number zero n = if n =ℕ b'-' then dash_start else if n =ℕ b'+' then plus_start else dead
after_number (suc k) n = if n =ℕ b'.' then number_start k else dead

abbrev version_step : VersionState → ℕ → VersionState
version_step (number_start k) n =
    if n =ℕ b'0' then number_zero k else if is_digit n then number_more k else dead
version_step (number_zero k) n = after_number k n
version_step (number_more k) n = if is_digit n then number_more k else after_number k n
version_step dash_start n = if is_suffix n then dash_more else dead
version_step dash_more n = if is_suffix n then dash_more else if n =ℕ b'+' then plus_start else dead
version_step plus_start n = if is_suffix n then plus_more else dead
version_step plus_more n = if is_suffix n then plus_more else dead
version_step dead n = dead

abbrev accepts : VersionState → Bool
accepts (number_zero k) = k =ℕ 0
accepts (number_more k) = k =ℕ 0
accepts dash_more = true
accepts plus_more = true
accepts _ = false

abbrev run_version : VersionState → String → Bool
run_version s String.[] = accepts s
run_version s (String.◌∷◌ c text) = run_version (version_step s (code c)) text

-- `pluginVersionPattern.MatchString`
unfoldable pub matches_version : String → Bool
matches_version text = run_version (number_start 2) text

unfoldable pub validate_plugin_version : String → String → Bool → Option MetadataError
unfolding matches_version
validate_plugin_version field version required =
    let trimmed = trim_space version in
    if trimmed == ""
    then (if required then some (empty_version field) else none)
    else if matches_version trimmed
    then none
    else some (malformed_version field trimmed)

unfoldable pub normalize : PluginMetadata → PluginMetadata
unfolding normalize_family normalize_mode
normalize m = record {
  family = normalize_family m.family;
  logical_id = trim_space m.logical_id;
  display_name = trim_space m.display_name;
  contract_version = trim_space m.contract_version;
  implementation_version = trim_space m.implementation_version;
  execution_mode = normalize_mode m.execution_mode;
  source_path = trim_space m.source_path;
}

-- The first error of a sequence of checks.
infixl 15 ◌or_else◌
abbrev pub ◌or_else◌ : {E : Type 0} → Option E → Option E → Option E
none or_else next = next
some e or_else next = some e

abbrev pub nonempty : {E : Type 0} → String → E → Option E
nonempty s e = if s == "" then some e else none

-- The checks of Validate, on metadata that Normalize has trimmed.
unfoldable pub check : PluginMetadata → Option MetadataError
unfolding validate_family validate_plugin_version validate_mode
check m =
    validate_family m.family
    or_else nonempty m.logical_id empty_logical_id
    or_else nonempty m.display_name empty_display_name
    or_else validate_plugin_version "contract version" m.contract_version true
    or_else validate_plugin_version "implementation version" m.implementation_version false
    or_else validate_mode m.execution_mode

unfoldable pub validate : PluginMetadata → Option MetadataError
unfolding normalize check
validate m = check (normalize m)

abbrev pub accept : {E A : Type 0} → Option E → A → Option A
accept none a = some a
accept (some e) a = none

-- What MarshalJSON encodes, and what UnmarshalJSON stores for decoded fields.
unfoldable pub stored : PluginMetadata → Option PluginMetadata
unfolding normalize validate
stored m = accept (validate (normalize m)) (normalize m)

unfoldable pub normalize_provenance : Provenance → Provenance
unfolding normalize
normalize_provenance p = record { plugins = map normalize p.plugins }

-- `string(plugin.Family) + "\x00" + plugin.LogicalID`
pub record PluginKey : Type 0 where
  pub family : String
  pub logical_id : String

abbrev pub key_of : PluginMetadata → PluginKey
key_of m = record { family = family_text m.family; logical_id = m.logical_id }

abbrev pub same_key : PluginKey → PluginKey → Bool
same_key a b = a.family == b.family && a.logical_id == b.logical_id

abbrev pub seen_key : List PluginKey → PluginKey → Bool
seen_key [] k = false
seen_key (x ∷ xs) k = same_key x k || seen_key xs k

-- The loop of Validate, with the keys that it has seen.
unfoldable pub check_plugins : List PluginKey → List PluginMetadata → Option MetadataError
unfolding validate
check_plugins seen [] = none
check_plugins seen (m ∷ rest) =
    let later = check_plugins (key_of m ∷ seen) rest in
    validate m
    or_else (if seen_key seen (key_of m)
        then some (duplicate_provenance m.family m.logical_id)
        else later)

unfoldable pub validate_provenance : Provenance → Option MetadataError
unfolding normalize_provenance check_plugins
validate_provenance p = check_plugins [] (normalize_provenance p).plugins

unfoldable pub stored_provenance : Provenance → Option Provenance
unfolding normalize_provenance validate_provenance
stored_provenance p = accept (validate_provenance (normalize_provenance p)) (normalize_provenance p)
