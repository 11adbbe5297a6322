-- ===== src/Orchestration/Types.antt =====
-- internal/orchestration/types.go: subtasks, dependencies and decompositions. A string type with
-- constants has a constructor for each, and `other` for any other string.
use zheng_harness.Base.{String, Bool, true, false, List}

pub data SubtaskStatus : Type 0 where
  pending running completed failed : SubtaskStatus
  other : String → SubtaskStatus

pub data DependencyType : Type 0 where
  depends_on sequential parallel_with : DependencyType
  other : String → DependencyType

pub record Dependency : Type 0 where
  pub from : String
  pub to : String
  pub type : DependencyType

-- A nil slice of dependencies is the empty list.
pub record Subtask : Type 0 where
  pub id : String
  pub description : String
  pub input : String
  pub expected_output : String
  pub dependencies : List String
  pub status : SubtaskStatus

pub record TaskDecomposition : Type 0 where
  pub task_id : String
  pub subtasks : List Subtask
  pub dag : List Dependency
  pub metadata : List (String × String)

unfoldable pub normalize_status : SubtaskStatus → SubtaskStatus
normalize_status (SubtaskStatus.other s) = SubtaskStatus.pending
normalize_status s = s

unfoldable pub status_is_valid : SubtaskStatus → Bool
status_is_valid (SubtaskStatus.other s) = false
status_is_valid s = true

unfoldable pub type_is_valid : DependencyType → Bool
type_is_valid (DependencyType.other s) = false
type_is_valid t = true

unfoldable pub normalize : Subtask → Subtask
unfolding normalize_status
normalize s = record s { status = normalize_status s.status }
