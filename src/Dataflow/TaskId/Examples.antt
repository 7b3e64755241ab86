-- ===== src/Dataflow/TaskId/Examples.antt =====
-- The theorems about the names of task types at a concrete one.
use traact_core.Prelude.{◌≡◌}
use traact_core.Dataflow.TaskId.{TaskType, task_type_name_to_enum, task_type_enum_to_name}
use traact_core.Dataflow.TaskId.Names.{name_to_enum-enum_to_name}

name_to_enum-enum_to_name_example :
    task_type_enum_to_name (task_type_name_to_enum "SeamEnd") ≡ "SeamEnd"
unfolding task_type_name_to_enum
name_to_enum-enum_to_name_example =
    name_to_enum-enum_to_name "SeamEnd"
      (λ e. let apart : TaskType.seam_end ≡ TaskType.invalid = e in cc)
