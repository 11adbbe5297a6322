-- ===== src/Tools/Capabilities.antt =====
-- internal/tools/safety.go: which capabilities a plugin may declare.
use zheng_harness.Base.{
  String, Bool, true, false, Option, none, some, List, [], ◌∷◌, ◌==◌, if◌then◌else◌,
}
use zheng_harness.Base.Text.{trim_space, equal_fold}

pub data CapabilityError : Type 0 where
  undeclared empty_capability : CapabilityError
  not_allowed : String → CapabilityError

-- `for _, candidate := range p.PluginCapabilities`
unfoldable pub declares : List String → String → Bool
unfolding trim_space equal_fold
declares [] trimmed = false
declares (candidate ∷ rest) trimmed =
    let later = declares rest trimmed in
    if equal_fold (trim_space candidate) trimmed then true else later

unfoldable pub declares_plugin_capability : List String → String → Bool
unfolding declares trim_space
declares_plugin_capability [] capability = true
declares_plugin_capability allowed capability =
    let trimmed = trim_space capability in if trimmed == "" then false else declares allowed trimmed

-- The loop over the declared capabilities.
unfoldable pub check_capabilities : List String → List String → Option CapabilityError
unfolding declares_plugin_capability trim_space
check_capabilities allowed [] = none
check_capabilities allowed (capability ∷ rest) =
    let trimmed = trim_space capability in
    let later = check_capabilities allowed rest in
    if trimmed == ""
    then some empty_capability
    else if declares_plugin_capability allowed trimmed
    then later
    else some (not_allowed trimmed)

-- ValidatePluginCapabilities; the first argument is the policy's PluginCapabilities.
unfoldable pub validate_plugin_capabilities : List String → List String → Option CapabilityError
unfolding check_capabilities
validate_plugin_capabilities [] capabilities = none
validate_plugin_capabilities allowed [] = some undeclared
validate_plugin_capabilities allowed capabilities = check_capabilities allowed capabilities
