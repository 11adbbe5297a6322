-- ===== src/Orchestration/Decomposition/Accepted.antt =====
-- What a decomposition without structural errors has.
use zheng_harness.Base.{
  String, Bool, true, false, ◌||◌, List, [], ◌∷◌, ◌++◌, ◌≡◌, ◌==◌, contains, Distinct, All, All-imp,
  if◌then◌else◌, arith, refl, sym, ap, ◌∙◌, inl, inr, Bool-cases, str_eq_iff, str_eq_refl,
}
use zheng_harness.Base.Maps.{update}
use zheng_harness.Orchestration.Types.{Subtask, TaskDecomposition, Dependency}
use zheng_harness.Orchestration.Decomposition.{
  ValidationError, is_empty, no_subtasks, task_id_required, collect_ids, listed_errors,
  subtask_errors, all_subtask_errors, dependency_errors, all_edge_errors, structural_errors, report,
}
use zheng_harness.Orchestration.Scheduler.Roots.{ids_of}

no-errors-append : (xs ys : List ValidationError) → xs ++ ys ≡ [] → (xs ≡ []) × (ys ≡ [])
no-errors-append [] ys h = (refl, h)
no-errors-append (x ∷ xs) ys h = cc

-- A usable endpoint: named, and among the ids.
abbrev pub Usable : (String → Bool) → String → Type 0
Usable valid x = ((x == "") ≡ false) × (valid x ≡ true)

listed_errors-All :
    (id : String) (valid seen : String → Bool) (deps : List String)
    → listed_errors id valid seen deps ≡ []
    → All (Usable valid) deps
unfolding listed_errors
listed_errors-All id valid seen [] h = tt
listed_errors-All id valid seen (dep ∷ rest) h =
    let later =
      listed_errors-All id valid (if dep == "" then seen else update seen dep true) rest
        (ground (arith, h)) in
    ((ground (arith, h), ground (arith, h)), later)

subtask_errors-All :
    (valid : String → Bool) (t : Subtask)
    → subtask_errors valid t ≡ []
    → ((t.id == "") ≡ false) × All (Usable valid) t.dependencies
unfolding subtask_errors
subtask_errors-All valid t h = (
  ground (arith, h),
  listed_errors-All t.id valid (λ _. false) t.dependencies (ground (arith, h)),
)

dependency_errors-Usable :
    (valid : String → Bool) (d : Dependency)
    → dependency_errors valid d ≡ []
    → Usable valid d.from × Usable valid d.to
unfolding dependency_errors
dependency_errors-Usable valid d h =
    ((ground (arith, h), ground (arith, h)), (ground (arith, h), ground (arith, h)))

collect_ids-Distinct :
    (ts : List Subtask) (seen : String → Bool)
    → All (λ t. (t.id == "") ≡ false) ts
    → (collect_ids ts seen).1 ≡ []
    → Distinct (ids_of ts) × ((a : String) → contains (ids_of ts) a ≡ true → seen a ≡ false)
unfolding collect_ids
collect_ids-Distinct [] seen named h = (tt, λ a c. ground (arith, c))
collect_ids-Distinct (t ∷ rest) seen named h =
    let fresh : seen t.id ≡ false = ground (arith, h, named.0) in
    let (distinct, new) =
      collect_ids-Distinct rest (if t.id == "" || seen t.id then seen else update seen t.id true)
        named.1 (ground (arith, h, named.0, fresh)) in
    (
      (ground (arith, new t.id, str_eq_refl t.id, named.0, fresh), distinct),
      λ a c. ground (arith, c, new a, str_eq_iff t.id a, named.0, fresh, ap seen),
    )

collect_ids-ids :
    (ts : List Subtask) (seen : String → Bool) (a : String)
    → All (λ t. (t.id == "") ≡ false) ts
    → (collect_ids ts seen).0 a ≡ (seen a || contains (ids_of ts) a)
unfolding collect_ids
collect_ids-ids [] seen a named = ground arith
collect_ids-ids (t ∷ rest) seen a named =
    let later =
      collect_ids-ids rest (if t.id == "" || seen t.id then seen else update seen t.id true) a
        named.1 in
    later ∙ elim (Bool-cases (t.id == a)) [
      | inl e ↦ let same = ap seen ((str_eq_iff t.id a).0 e) in ground (arith, named.0, same, e)
      | inr n ↦ ground (arith, named.0, n)
    ]

all_subtask_errors-All :
    (valid : String → Bool) (ts : List Subtask)
    → all_subtask_errors valid ts ≡ []
    → All (λ t. (t.id == "") ≡ false) ts × All (λ t. All (Usable valid) t.dependencies) ts
unfolding all_subtask_errors
all_subtask_errors-All valid [] h = (tt, tt)
all_subtask_errors-All valid (t ∷ rest) h =
    let (one, more) = no-errors-append (subtask_errors valid t) (all_subtask_errors valid rest) h in
    let (named, usable) = subtask_errors-All valid t one in
    let (names, deps) = all_subtask_errors-All valid rest more in ((named, names), (usable, deps))

all_edge_errors-All :
    (valid : String → Bool) (es : List Dependency)
    → all_edge_errors valid es ≡ []
    → All (λ e. Usable valid e.from × Usable valid e.to) es
unfolding all_edge_errors
all_edge_errors-All valid [] h = tt
all_edge_errors-All valid (e ∷ rest) h =
    let (one, more) = no-errors-append (dependency_errors valid e) (all_edge_errors valid rest) h in
    (dependency_errors-Usable valid e one, all_edge_errors-All valid rest more)

-- What a decomposition without structural errors has; `valid` are the ids of its subtasks.
pub record Sound (d : TaskDecomposition) : Type 0 where
  pub distinct : Distinct (ids_of d.subtasks)
  pub names : All (λ t. (t.id == "") ≡ false) d.subtasks
  pub listed : All (λ t. All (Usable (contains (ids_of d.subtasks))) t.dependencies) d.subtasks
  pub drawn :
      All
        (λ e.
          Usable (contains (ids_of d.subtasks)) e.from × Usable (contains (ids_of d.subtasks)) e.to)
        d.dag

report-empty :
    (condition : Bool) (e : ValidationError) (rest : List ValidationError)
    → report condition e rest ≡ []
    → rest ≡ []
report-empty true e rest h = cc
report-empty false e rest h = h

pub structural_errors-Sound : (d : TaskDecomposition) → structural_errors d ≡ [] → Sound d
unfolding structural_errors
structural_errors-Sound d h =
    let ids = (collect_ids d.subtasks (λ _. false)).0 in
    let (others, no_edges) =
      no-errors-append
        ((collect_ids d.subtasks (λ _. false)).1 ++ all_subtask_errors ids d.subtasks)
        (all_edge_errors ids d.dag)
        (report-empty (is_empty d.subtasks) no_subtasks _
          (report-empty (d.task_id == "") task_id_required _ h)) in
    let (no_dups, no_subs) =
      no-errors-append (collect_ids d.subtasks (λ _. false)).1 (all_subtask_errors ids d.subtasks)
        others in
    let (names, listed) = all_subtask_errors-All ids d.subtasks no_subs in
    let same : (x : String) → ids x ≡ contains (ids_of d.subtasks) x =
      λ x. collect_ids-ids d.subtasks (λ _. false) x names in
    let usable : (x : String) → Usable ids x → Usable (contains (ids_of d.subtasks)) x =
      λ x u. (u.0, sym (same x) ∙ u.1) in
    record {
      distinct = (collect_ids-Distinct d.subtasks (λ _. false) names no_dups).0;
      names = names;
      listed = All-imp d.subtasks (λ t. All-imp t.dependencies usable) listed;
      drawn =
          All-imp d.dag (λ e u. (usable e.from u.0, usable e.to u.1))
            (all_edge_errors-All ids d.dag no_edges);
    }
