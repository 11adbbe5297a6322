-- ===== src/Orchestration/Scheduler/Growth.antt =====
-- The loops of buildGraph that add edges: the graph stays consistent, keeps what it has, and gets
-- an edge for each dependency.
use zheng_harness.Base.{
  String, true, false, ◌||◌, List, [], ◌∷◌, ◌≡◌, ◌==◌, All, All-imp, if◌then◌else◌, arith, refl, ap,
  ◌∙◌, inl, inr, Bool-cases, Option-cases, str_eq_iff, str_eq_refl,
}
use zheng_harness.Orchestration.Types.{Subtask, Dependency}
use zheng_harness.Orchestration.Scheduler.Invariant.{is_known}
use zheng_harness.Orchestration.Scheduler.Build.{
  Graph, Built, ok, err, link, add_edge, add_dependencies, add_all_dependencies, add_dag,
  is_parallel, ◌>>=◌,
}
use zheng_harness.Orchestration.Scheduler.Links.{Linked, link-Linked}

pub record Extends (g g' : Graph) : Type 0 where
  pub same_subtasks : g'.scheduler.subtasks ≡ g.scheduler.subtasks
  pub same_order : g'.scheduler.ordered_subtask_ids ≡ g.scheduler.ordered_subtask_ids
  pub keeps_edges : (p d : String) → g.edges p d ≡ true → g'.edges p d ≡ true

abbrev pub Holds : (Graph → Type 0) → Built → Type 0
Holds P (ok g) = P g
Holds P (err e) = Unit

pub bind-Holds :
    (P Q : Graph → Type 0) (b : Built) (f : Graph → Built)
    → Holds P b
    → ((g : Graph) → P g → Holds Q (f g))
    → Holds Q (b >>= f)
bind-Holds P Q (ok g) f h k = k g h
bind-Holds P Q (err e) f h k = tt

pub Holds-imp :
    (P Q : Graph → Type 0) (b : Built) → ((g : Graph) → P g → Q g) → Holds P b → Holds Q b
Holds-imp P Q (ok g) f h = f g h
Holds-imp P Q (err e) f h = tt

-- What adding edges does: the graph is consistent, extends the one before, and satisfies Q.
abbrev pub Grown : Graph → (Graph → Type 0) → Graph → Type 0
Grown g Q g' = Linked g' × Extends g g' × Q g'

Extends-refl : (g : Graph) → Extends g g
Extends-refl g = record { same_subtasks = refl; same_order = refl; keeps_edges = λ p d h. h }

pub Extends-trans : (a b c : Graph) → Extends a b → Extends b c → Extends a c
Extends-trans a b c ab bc = record {
  same_subtasks = bc.same_subtasks ∙ ab.same_subtasks;
  same_order = bc.same_order ∙ ab.same_order;
  keeps_edges = λ p d h. bc.keeps_edges p d (ab.keeps_edges p d h);
}

link-Extends : (from to : String) (g : Graph) → Extends g (link from to g)
unfolding link
link-Extends from to g = record {
  same_subtasks = refl;
  same_order = refl;
  keeps_edges = λ p d h. ground (arith, str_eq_iff from p, h);
}

link-marks : (from to : String) (g : Graph) → (link from to g).edges from to ≡ true
unfolding link
link-marks from to g = ground (arith, str_eq_refl from, str_eq_refl to)

pub add_edge-Grown :
    (from to : String) (g : Graph)
    → Linked g
    → Holds (Grown g (λ g'. g'.edges from to ≡ true)) (add_edge from to g)
unfolding add_edge
add_edge-Grown from to g inv = elim (Bool-cases (from == "" || to == "")) [
  | inl blank ↦ simp (add_edge, blank) tt
  | inr named ↦ elim (Option-cases (g.scheduler.subtasks from)) [
    | inl missing ↦ simp (add_edge, named, missing) tt
    | inr (a, found) ↦ elim (Option-cases (g.scheduler.subtasks to)) [
      | inl missing ↦ simp (add_edge, named, found, missing) tt
      | inr (b, found') ↦ elim (Bool-cases (g.edges from to)) [
        | inl old ↦ simp (add_edge, named, found, found', old) (inv, Extends-refl g, refl)
        | inr new ↦
            simp (add_edge, named, found, found', new)
              (
                link-Linked from to g inv (ap is_known found) new,
                link-Extends from to g,
                link-marks from to g,
              )
      ]
    ]
  ]
]

-- One growth after another.
then_Grown :
    (g g1 : Graph) (R S : Graph → Type 0) (b : Built)
    → Extends g g1
    → ((g' : Graph) → Extends g1 g' → R g' → S g')
    → Holds (Grown g1 R) b
    → Holds (Grown g S) b
then_Grown g g1 R S b x k h =
    Holds-imp (Grown g1 R) (Grown g S) b
      (λ g' (inv, x', r). (inv, Extends-trans g g1 g' x x', k g' x' r)) h

pub add_dependencies-Grown :
    (to : String) (deps : List String) (g : Graph)
    → Linked g
    → Holds (Grown g (λ g'. All (λ dep. g'.edges dep to ≡ true) deps)) (add_dependencies to deps g)
unfolding add_dependencies
add_dependencies-Grown to [] g inv = (inv, Extends-refl g, tt)
add_dependencies-Grown to (dep ∷ rest) g inv =
    bind-Holds (Grown g (λ g'. g'.edges dep to ≡ true)) _ (add_edge dep to g)
      (add_dependencies to rest) (add_edge-Grown dep to g inv)
      (λ g1 (inv1, x1, e).
        then_Grown g g1 (λ g'. All (λ d. g'.edges d to ≡ true) rest) _ (add_dependencies to rest g1)
          x1 (λ g' x' r. (x'.keeps_edges dep to e, r)) (add_dependencies-Grown to rest g1 inv1))

-- Each subtask is linked from each id of its list.
abbrev pub SubtaskLinks : Graph → Subtask → Type 0
SubtaskLinks g t = All (λ dep. g.edges dep t.id ≡ true) t.dependencies

abbrev pub EdgeLinked : Graph → Dependency → Type 0
EdgeLinked g e = is_parallel e.type ≡ false → g.edges e.from e.to ≡ true

pub add_all_dependencies-Grown :
    (ts : List Subtask) (g : Graph)
    → Linked g
    → Holds (Grown g (λ g'. All (SubtaskLinks g') ts)) (add_all_dependencies ts g)
unfolding add_all_dependencies
add_all_dependencies-Grown [] g inv = (inv, Extends-refl g, tt)
add_all_dependencies-Grown (t ∷ rest) g inv =
    bind-Holds (Grown g (λ g'. SubtaskLinks g' t)) _ (add_dependencies t.id t.dependencies g)
      (add_all_dependencies rest) (add_dependencies-Grown t.id t.dependencies g inv)
      (λ g1 (inv1, x1, e).
        then_Grown g g1 (λ g'. All (SubtaskLinks g') rest) _ (add_all_dependencies rest g1) x1
          (λ g' x' r. (All-imp t.dependencies (λ dep. x'.keeps_edges dep t.id) e, r))
          (add_all_dependencies-Grown rest g1 inv1))

pub add_dag-Grown :
    (es : List Dependency) (g : Graph)
    → Linked g
    → Holds (Grown g (λ g'. All (EdgeLinked g') es)) (add_dag es g)
unfolding add_dag
add_dag-Grown [] g inv = (inv, Extends-refl g, tt)
add_dag-Grown (e ∷ rest) g inv =
    bind-Holds (Grown g (λ g'. EdgeLinked g' e)) _
      (if is_parallel e.type then ok g else add_edge e.from e.to g) (add_dag rest)
      (elim (Bool-cases (is_parallel e.type)) [
        | inl parallel ↦ simp parallel (inv, Extends-refl g, λ h. ground (arith, h))
        | inr ordered ↦ simp ordered (
            Holds-imp _ _ (add_edge e.from e.to g) (λ g' (i, x, h). (i, x, λ _. h))
              (add_edge-Grown e.from e.to g inv))
      ])
      (λ g1 (inv1, x1, h).
        then_Grown g g1 (λ g'. All (EdgeLinked g') rest) _ (add_dag rest g1) x1
          (λ g' x' r. (λ ordered. x'.keeps_edges e.from e.to (h ordered), r))
          (add_dag-Grown rest g1 inv1))
