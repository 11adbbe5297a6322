-- ===== src/Runtime/TaskRegistry/Resolved.antt =====
-- A task that Resolve has completed.
use zheng_harness.Base.{
  String, true, false, ◌==◌, ◌≡◌, refl, ap, ◌∙◌, if◌then◌else◌, Bool-cases, inl, inr,
}
use zheng_harness.Base.Text.{trim_space}
use zheng_harness.Domain.Types.{TaskCategory, coding, research, file_workflow, general, Task}
use zheng_harness.Runtime.TaskRegistry.{
  complete, TaskProtocolMetadata, resolve, resolve_category, normalize_category, normalize_task,
  or_default,
}

abbrev IsBlank : String → Type 0
IsBlank s = (trim_space s == "") ≡ true

or_default-kept :
    (s t : String) → (trim_space t == "") ≡ false → (trim_space (or_default s t) == "") ≡ false
or_default-kept s t h = elim (Bool-cases (trim_space s == "")) [
  | inl blank ↦ rw blank h
  | inr full ↦ rw (full) full
]

or_default_again :
    (s t : String) → (trim_space t == "") ≡ false → or_default (or_default s t) t ≡ or_default s t
or_default_again s t h = ap (λ b. if b then t else or_default s t) (or_default-kept s t h)

-- The default texts are not blank.
abbrev defaults : TaskCategory → String × String
defaults c =
    let d = (resolve_category c).compatibility_defaults in (d.protocol_hint, d.verification_policy)

defaults_filled :
    (c : TaskCategory)
    → ((trim_space (defaults (normalize_category c)).0 == "") ≡ false)
      × ((trim_space (defaults (normalize_category c)).1 == "") ≡ false)
unfolding resolve_category normalize_category trim_space
defaults_filled coding = (refl, refl)
defaults_filled research = (refl, refl)
defaults_filled file_workflow = (refl, refl)
defaults_filled general = (refl, refl)
defaults_filled (TaskCategory.other s) = (refl, refl)

-- Whatever the task, the resolved one names a supported category, and its protocol hint and its
-- verification policy are not blank; its identity, description, goal and time are the task's own.
pub record IsResolved (task resolved : Task) : Type 0 where
  pub category : normalize_category resolved.category ≡ resolved.category
  pub hint : (trim_space resolved.protocol_hint == "") ≡ false
  pub policy : (trim_space resolved.verification_policy == "") ≡ false
  pub id : resolved.id ≡ task.id
  pub description : resolved.description ≡ task.description
  pub goal : resolved.goal ≡ task.goal
  pub created_at : resolved.created_at ≡ task.created_at

supported :
    (c : TaskCategory)
    → normalize_category (resolve_category (normalize_category c)).task_type
      ≡ (resolve_category (normalize_category c)).task_type
unfolding resolve_category normalize_category
supported coding = refl
supported research = refl
supported file_workflow = refl
supported general = refl
supported (TaskCategory.other s) = refl

pub resolve-IsResolved : (task : Task) → IsResolved task (resolve task).task
unfolding resolve
resolve-IsResolved task = record {
  category = supported task.category;
  hint =
      or_default-kept task.protocol_hint (defaults (normalize_category task.category)).0
        (defaults_filled task.category).0;
  policy =
      or_default-kept task.verification_policy (defaults (normalize_category task.category)).1
        (defaults_filled task.category).1;
  id = refl;
  description = refl;
  goal = refl;
  created_at = refl;
}

protocol_again :
    (c : TaskCategory)
    → resolve_category (normalize_category (resolve_category (normalize_category c)).task_type)
      ≡ resolve_category (normalize_category c)
unfolding resolve_category normalize_category
protocol_again coding = refl
protocol_again research = refl
protocol_again file_workflow = refl
protocol_again general = refl
protocol_again (TaskCategory.other s) = refl

-- A task that is resolved already.
complete_again :
    (metadata : TaskProtocolMetadata) (task : Task)
    → (trim_space metadata.compatibility_defaults.protocol_hint == "") ≡ false
    → (trim_space metadata.compatibility_defaults.verification_policy == "") ≡ false
    → complete metadata (complete metadata task).task ≡ complete metadata task
complete_again metadata task hint policy =
    rw
      (
        or_default_again task.protocol_hint metadata.compatibility_defaults.protocol_hint hint,
        or_default_again task.verification_policy
            metadata.compatibility_defaults.verification_policy policy,
      )
      refl

-- Resolving a task that Resolve has completed changes nothing, and finds the same protocol.
pub resolve_again : (task : Task) → resolve (resolve task).task ≡ resolve task
unfolding resolve
resolve_again task =
    let protocol = resolve_category (normalize_category task.category) in
    let resolved = (complete protocol (normalize_task task)).task in
    let filled = defaults_filled task.category in
    ap (λ p. complete p (normalize_task resolved)) (protocol_again task.category)
    ∙ (ap (λ c. complete protocol (record resolved { category = c })) (supported task.category)
        ∙ complete_again protocol (normalize_task task) filled.0 filled.1)
