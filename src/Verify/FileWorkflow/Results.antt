-- ===== src/Verify/FileWorkflow/Results.antt =====
-- The map of the results: its keys, and what it holds under them.
use zheng_harness.Base.{
  String, true, false, none, some, List, [], ◌∷◌, ◌==◌, contains, ◌≡◌, ◌↔◌, ◌⊎◌, inl, inr, refl,
  sym, ap, ◌∙◌, arith, Bool-cases, str_eq_iff,
}
use zheng_harness.Base.Maps.{lookup}
use zheng_harness.Domain.Types.{FileResult}
use zheng_harness.Verify.FileWorkflow.{normalize_file_path, check_results, entries}

-- Each result has a path, which is not among `seen` and not the path of another result.
abbrev pub Apart : List String → List FileResult → Type 0
Apart seen [] = Unit
Apart seen (r ∷ rest) =
    ((normalize_file_path r.path == "") ≡ false)
    × (contains seen (normalize_file_path r.path) ≡ false)
    × Apart (normalize_file_path r.path ∷ seen) rest

abbrev pub IsAmong : FileResult → List FileResult → Type 0
IsAmong r [] = ⊥
IsAmong r (s ∷ rest) = (s ≡ r) ⊎ IsAmong r rest

pub check_results_iff :
    (seen : List String) (results : List FileResult)
    → (check_results seen results ≡ none) ↔ Apart seen results
unfolding check_results
check_results_iff seen [] = (λ h. tt, λ h. refl)
check_results_iff seen (r ∷ rest) =
    let later = check_results_iff (normalize_file_path r.path ∷ seen) rest in
    (
      λ h. (ground (arith, h), ground (arith, h), later.0 (ground (arith, h))),
      λ h. ground (arith, h.0, h.1, later.1 h.2),
    )

entry-found :
    (path : String) (s : FileResult) (rest : List FileResult) (r : FileResult)
    → (normalize_file_path s.path == path) ≡ true
    → lookup path (entries (s ∷ rest)) ≡ some r
    → s ≡ r
unfolding lookup
entry-found path s rest r same h = ground (arith, h, same)

pub lookup-entries :
    (path : String) (results : List FileResult) (r : FileResult)
    → lookup path (entries results) ≡ some r
    → IsAmong r results × (normalize_file_path r.path ≡ path)
unfolding lookup
lookup-entries path [] r h = cc h
lookup-entries path (s ∷ rest) r h = elim (Bool-cases (normalize_file_path s.path == path)) [
  | inl same ↦
      let e = entry-found path s rest r same h in
      (
        inl e,
        ap (λ t. normalize_file_path t.path) (sym e)
            ∙ (str_eq_iff (normalize_file_path s.path) path).0 same,
      )
  | inr other ↦
      let (among, e) = lookup-entries path rest r (ground (arith, h, other)) in (inr among, e)
]

contains-Apart :
    (seen : List String) (results : List FileResult) (r : FileResult)
    → Apart seen results
    → IsAmong r results
    → contains seen (normalize_file_path r.path) ≡ false
contains-Apart seen [] r h among = absurd among
contains-Apart seen (s ∷ rest) r h (inl e) =
    ap (λ t. contains seen (normalize_file_path t.path)) (sym e) ∙ h.1
contains-Apart seen (s ∷ rest) r h (inr among) =
    ground (arith, contains-Apart (normalize_file_path s.path ∷ seen) rest r h.2 among)

pub lookup-Apart :
    (seen : List String) (results : List FileResult) (r : FileResult)
    → Apart seen results
    → IsAmong r results
    → lookup (normalize_file_path r.path) (entries results) ≡ some r
unfolding lookup
lookup-Apart seen [] r h among = absurd among
lookup-Apart seen (s ∷ rest) r h (inl e) =
    let same =
      (str_eq_iff (normalize_file_path s.path) (normalize_file_path r.path)).1
        (ap (λ t. normalize_file_path t.path) e) in
    ground (arith, same, ap some e)
lookup-Apart seen (s ∷ rest) r h (inr among) = ground (
  arith,
  contains-Apart (normalize_file_path s.path ∷ seen) rest r h.2 among,
  lookup-Apart (normalize_file_path s.path ∷ seen) rest r h.2 among,
)
