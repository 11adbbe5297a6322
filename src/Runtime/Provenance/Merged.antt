-- ===== src/Runtime/Provenance/Merged.antt =====
-- Merging a plugin into a provenance: nothing is lost, nothing stands twice, and the result is valid.
use zheng_harness.Base.{
  false, ◌||◌, Option, none, some, List, [], ◌∷◌, ◌++◌, ◌≡◌, refl, ap, ◌∙◌, arith, Bool-cases,
  Option-cases, inl, inr, map,
}
use zheng_harness.Domain.Types.{PluginMetadata, Provenance}
use zheng_harness.Domain.PluginMetadata.{
  PluginKey, key_of, same_key, normalize, validate, check_plugins, normalize_provenance,
  validate_provenance,
}
use zheng_harness.Domain.PluginMetadata.Trimmed.{
  normalize_again, validate-normalize, map_again, normalize_provenance_again,
}
use zheng_harness.Domain.PluginMetadata.Checked.{
  has_key, has_key_same, has_key-append, check_plugins-append,
}
use zheng_harness.Runtime.Provenance.{
  plugins_of, unless_error, extended, merge_normalized, merge_provenance,
}

-- What mergeProvenance is given and returns: no provenance, or one that Validate accepts.
abbrev pub IsSound : Option Provenance → Type 0
IsSound none = Unit
IsSound (some p) = validate_provenance p ≡ none

validate-normalize_provenance :
    (p : Provenance) → validate_provenance (normalize_provenance p) ≡ validate_provenance p
unfolding validate_provenance
validate-normalize_provenance p =
    ap (λ q. check_plugins [] q.plugins) (normalize_provenance_again p)

unless_error-IsSound :
    (existing : Option Provenance) (p : Provenance)
    → IsSound existing
    → IsSound (unless_error (validate_provenance p) existing (some p))
unless_error-IsSound existing p h = elim (Option-cases (validate_provenance p)) [
  | inl good ↦ rw good good
  | inr (why, bad) ↦ rw bad h
]

merge_normalized-IsSound :
    (existing : Option Provenance) (n : PluginMetadata)
    → IsSound existing
    → IsSound (merge_normalized existing n)
merge_normalized-IsSound none n h = unless_error-IsSound none (extended none n) h
merge_normalized-IsSound (some p) n h =
    elim (Bool-cases (has_key (normalize_provenance p).plugins (key_of n))) [
      | inl there ↦ rw (there, validate-normalize_provenance p) h
      | inr missing ↦ rw missing (unless_error-IsSound (some p) (extended (some p) n) h)
    ]

-- A provenance that Validate accepts, or none, stays so, whatever metadata is merged into it.
pub merge_provenance-IsSound :
    (existing : Option Provenance) (m : PluginMetadata)
    → IsSound existing
    → IsSound (merge_provenance existing m)
unfolding merge_provenance
merge_provenance-IsSound existing m h = elim (Option-cases (validate (normalize m))) [
  | inl good ↦ rw good (merge_normalized-IsSound existing (normalize m) h)
  | inr (why, bad) ↦ rw bad h
]

map-append :
    (ms : List PluginMetadata) (n : PluginMetadata)
    → map normalize (ms ++ n ∷ []) ≡ map normalize ms ++ normalize n ∷ []
map-append [] n = refl
map-append (m ∷ ms) n = rw (map-append ms n) refl

plugins_of_again :
    (existing : Option Provenance) → map normalize (plugins_of existing) ≡ plugins_of existing
unfolding normalize_provenance
plugins_of_again none = refl
plugins_of_again (some p) = map_again p.plugins

-- The list that is checked again and returned is the old one with the new plugin at its end.
extended_plugins :
    (existing : Option Provenance) (m : PluginMetadata)
    → map normalize (plugins_of existing ++ normalize m ∷ [])
      ≡ plugins_of existing ++ normalize m ∷ []
extended_plugins existing m =
    rw
      (map-append (plugins_of existing) (normalize m), plugins_of_again existing, normalize_again m)
      refl

extended-plugins_of :
    (existing : Option Provenance) (m : PluginMetadata)
    → plugins_of (some (extended existing (normalize m))) ≡ plugins_of existing ++ normalize m ∷ []
unfolding normalize_provenance
extended-plugins_of existing m =
    ap (map normalize) (extended_plugins existing m) ∙ extended_plugins existing m

extended_valid :
    (existing : Option Provenance) (m : PluginMetadata)
    → check_plugins [] (plugins_of existing) ≡ none
    → validate (normalize m) ≡ none
    → has_key (plugins_of existing) (key_of (normalize m)) ≡ false
    → validate_provenance (extended existing (normalize m)) ≡ none
unfolding validate_provenance
extended_valid existing m h good apart =
    ap (check_plugins []) (extended-plugins_of existing m)
    ∙ check_plugins-append [] (plugins_of existing) (normalize m) h good apart refl

-- The key of a plugin of the list is found again.
abbrev pub Recorded : Option Provenance → PluginMetadata → Option Provenance → PluginKey → Type 0
Recorded existing m result k =
    has_key (plugins_of result) k
    ≡ (has_key (plugins_of existing) k || same_key (key_of (normalize m)) k)

extended-Recorded :
    (existing : Option Provenance) (m : PluginMetadata) (k : PluginKey)
    → Recorded existing m (some (extended existing (normalize m))) k
extended-Recorded existing m k =
    ap (λ ms. has_key ms k) (extended-plugins_of existing m)
    ∙ has_key-append (plugins_of existing) (normalize m) k

checked_plugins :
    (existing : Option Provenance)
    → IsSound existing
    → check_plugins [] (plugins_of existing) ≡ none
unfolding validate_provenance
checked_plugins none h = refl
checked_plugins (some p) h = h

merge_normalized-Recorded :
    (existing : Option Provenance) (m : PluginMetadata) (k : PluginKey)
    → IsSound existing
    → validate (normalize m) ≡ none
    → Recorded existing m (merge_normalized existing (normalize m)) k
merge_normalized-Recorded none m k h good =
    rw (extended_valid none m (checked_plugins none tt) good refl) (extended-Recorded none m k)
merge_normalized-Recorded (some p) m k h good =
    let ms = (normalize_provenance p).plugins in
    elim (Bool-cases (has_key ms (key_of (normalize m)))) [
      | inl there ↦ rw there (
          ap (λ q. has_key q.plugins k) (normalize_provenance_again p)
          ∙ ground (arith, has_key_same ms (key_of (normalize m)) k there))
      | inr missing ↦
          rw (missing, extended_valid (some p) m (checked_plugins (some p) h) good missing)
            (extended-Recorded (some p) m k)
    ]

-- Merging valid metadata into a provenance that Validate accepts, or into none, keeps the keys of all
-- its plugins and adds the key of the new one, and no other.
pub merge_provenance-Recorded :
    (existing : Option Provenance) (m : PluginMetadata) (k : PluginKey)
    → IsSound existing
    → validate m ≡ none
    → Recorded existing m (merge_provenance existing m) k
unfolding merge_provenance
merge_provenance-Recorded existing m k h good =
    let good' : validate (normalize m) ≡ none = validate-normalize m ∙ good in
    rw good' (merge_normalized-Recorded existing m k h good')
