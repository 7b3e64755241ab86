-- ===== src/Dataflow/TaskId.antt =====
-- include/traact/dataflow/graph/task/TraactTaskId.h: the names of the task types.
pub mod Names
mod Examples
use traact_core.Prelude.{Bool, true, false, String, eqb, if◌then◌else◌}

pub data TaskType : Type 0 where
  control_flow seam_entry seam_start seam_end source component : TaskType
  task_module cuda_component cuda_flow invalid count : TaskType

unfoldable pub task_type_name_to_enum : String → TaskType
task_type_name_to_enum name =
    if eqb name "Component"
    then TaskType.component
    else if eqb name "ControlFlow"
    then TaskType.control_flow
    else if eqb name "SeamEntry"
    then TaskType.seam_entry
    else if eqb name "SeamStart"
    then TaskType.seam_start
    else if eqb name "SeamEnd"
    then TaskType.seam_end
    else if eqb name "Module"
    then TaskType.task_module
    else if eqb name "Source"
    then TaskType.source
    else if eqb name "CudaComponent"
    then TaskType.cuda_component
    else if eqb name "CudaFlow"
    then TaskType.cuda_flow
    else TaskType.invalid

unfoldable pub task_type_enum_to_name : TaskType → String
task_type_enum_to_name TaskType.control_flow = "ControlFlow"
task_type_enum_to_name TaskType.seam_entry = "SeamEntry"
task_type_enum_to_name TaskType.seam_start = "SeamStart"
task_type_enum_to_name TaskType.seam_end = "SeamEnd"
task_type_enum_to_name TaskType.component = "Component"
task_type_enum_to_name TaskType.task_module = "Module"
task_type_enum_to_name TaskType.source = "Source"
task_type_enum_to_name TaskType.cuda_component = "CudaComponent"
task_type_enum_to_name TaskType.cuda_flow = "CudaFlow"
task_type_enum_to_name TaskType.invalid = "invalid"
task_type_enum_to_name TaskType.count = "invalid"
