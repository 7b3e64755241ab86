-- ===== src/Dataflow/TaskId/Names.antt =====
-- The names of the task types of include/traact/dataflow/graph/task/TraactTaskId.h, there and back.
use traact_core.Prelude.{
  ◌≡◌, ◌≢◌, refl, sym, ◌∙◌, inl, inr, String, eqb, eqb_iff, Bool-cases, if◌then◌else◌,
}
use traact_core.Dataflow.TaskId.{TaskType, task_type_name_to_enum, task_type_enum_to_name}

-- The name of a task type, other than that of the constant `COUNT`, is read back as that type.
pub enum_to_name-name_to_enum :
    (t : TaskType) → t ≢ TaskType.count → task_type_name_to_enum (task_type_enum_to_name t) ≡ t
unfolding task_type_name_to_enum task_type_enum_to_name
enum_to_name-name_to_enum TaskType.control_flow h = refl
enum_to_name-name_to_enum TaskType.seam_entry h = refl
enum_to_name-name_to_enum TaskType.seam_start h = refl
enum_to_name-name_to_enum TaskType.seam_end h = refl
enum_to_name-name_to_enum TaskType.source h = refl
enum_to_name-name_to_enum TaskType.component h = refl
enum_to_name-name_to_enum TaskType.task_module h = refl
enum_to_name-name_to_enum TaskType.cuda_component h = refl
enum_to_name-name_to_enum TaskType.cuda_flow h = refl
enum_to_name-name_to_enum TaskType.invalid h = refl
enum_to_name-name_to_enum TaskType.count h = absurd (h refl)

-- A test for a name on the way to a type.
tried :
    (t rest : TaskType) (name literal : String)
    → (rest ≢ TaskType.invalid → task_type_enum_to_name rest ≡ name)
    → task_type_enum_to_name t ≡ literal
    → (if eqb name literal then t else rest) ≢ TaskType.invalid
    → task_type_enum_to_name (if eqb name literal then t else rest) ≡ name
tried t rest name literal later here h = elim (Bool-cases (eqb name literal)) [
  | inl e ↦ rw e (here ∙ sym ((eqb_iff name literal).0 e))
  | inr e ↦ rw e (later (rw e at h))
]

-- A name that is read as a task type, and not as the invalid one, is the name of that type.
pub name_to_enum-enum_to_name :
    (name : String)
    → task_type_name_to_enum name ≢ TaskType.invalid
    → task_type_enum_to_name (task_type_name_to_enum name) ≡ name
unfolding task_type_name_to_enum task_type_enum_to_name
name_to_enum-enum_to_name name h =
    tried _ _ name "Component"
      (tried _ _ name "ControlFlow"
        (tried _ _ name "SeamEntry"
          (tried _ _ name "SeamStart"
            (tried _ _ name "SeamEnd"
              (tried _ _ name "Module"
                (tried _ _ name "Source"
                  (tried _ _ name "CudaComponent"
                    (tried _ _ name "CudaFlow"
                      (λ (k : TaskType.invalid ≢ TaskType.invalid). absurd (k refl)) refl)
                    refl)
                  refl)
                refl)
              refl)
            refl)
          refl)
        refl)
      refl h
