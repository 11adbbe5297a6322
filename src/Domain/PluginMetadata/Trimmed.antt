-- ===== src/Domain/PluginMetadata/Trimmed.antt =====
-- Plugin metadata that Normalize has trimmed stays as it is.
use zheng_harness.Base.{
  String, some, List, [], ◌∷◌, ◌≡◌, refl, ap, ◌∙◌, map, arith, str_eq_iff, Option-cases, inl, inr,
}
use zheng_harness.Base.Text.{trim_space}
use zheng_harness.Base.Text.Trim.{trim_space_again}
use zheng_harness.Domain.Types.{PluginFamily, PluginExecutionMode, PluginMetadata, Provenance}
use zheng_harness.Domain.PluginMetadata.{
  family_text, family_of, mode_text, mode_of, normalize_family, normalize_mode, normalize, validate,
  check, accept, stored, normalize_provenance,
}

pub family_text-family_of : (s : String) → family_text (family_of s) ≡ s
family_text-family_of s = ground (
  arith,
  str_eq_iff s "tool",
  str_eq_iff s "provider",
  str_eq_iff s "verifier",
  str_eq_iff s "agent_strategy",
)

pub mode_text-mode_of : (s : String) → mode_text (mode_of s) ≡ s
mode_text-mode_of s = ground (arith, str_eq_iff s "external", str_eq_iff s "native")

pub normalize_family_again :
    (f : PluginFamily) → normalize_family (normalize_family f) ≡ normalize_family f
unfolding normalize_family
normalize_family_again f =
    rw (family_text-family_of (trim_space (family_text f)), trim_space_again (family_text f)) refl

pub normalize_mode_again :
    (m : PluginExecutionMode) → normalize_mode (normalize_mode m) ≡ normalize_mode m
unfolding normalize_mode
normalize_mode_again m =
    rw (mode_text-mode_of (trim_space (mode_text m)), trim_space_again (mode_text m)) refl

pub normalize_again : (m : PluginMetadata) → normalize (normalize m) ≡ normalize m
unfolding normalize
normalize_again m =
    rw
      (
        normalize_family_again m.family,
        trim_space_again m.logical_id,
        trim_space_again m.display_name,
        trim_space_again m.contract_version,
        trim_space_again m.implementation_version,
        normalize_mode_again m.execution_mode,
        trim_space_again m.source_path,
      )
      refl

pub validate-normalize : (m : PluginMetadata) → validate (normalize m) ≡ validate m
unfolding validate
validate-normalize m = ap check (normalize_again m)

pub map_again : (ms : List PluginMetadata) → map normalize (map normalize ms) ≡ map normalize ms
map_again [] = refl
map_again (m ∷ ms) = rw (normalize_again m, map_again ms) refl

pub normalize_provenance_again :
    (p : Provenance) → normalize_provenance (normalize_provenance p) ≡ normalize_provenance p
unfolding normalize_provenance
normalize_provenance_again p = rw (map_again p.plugins) refl

-- Metadata that UnmarshalJSON has stored is what MarshalJSON encodes and UnmarshalJSON reads back,
-- unchanged.
pub stored_again : (m n : PluginMetadata) → stored m ≡ some n → stored n ≡ some n
unfolding stored
stored_again m n h = elim (Option-cases (validate (normalize m))) [
  | inl good ↦
      let e : normalize m ≡ n = ground (arith, h, good) in
      rw (← e) (
        ap (λ k. accept (validate k) k) (normalize_again m) ∙ ap (λ v. accept v (normalize m)) good)
  | inr (why, bad) ↦ ground (arith, h, bad)
]
