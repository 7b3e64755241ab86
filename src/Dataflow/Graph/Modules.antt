-- ===== src/Dataflow/Graph/Modules.antt =====
-- src/traact/dataflow/graph/builder/ModuleGraphBuilder.cpp: the tasks of the modules that components
-- share. `component_modules_` and `module_map_` are maps from the module keys; of a module only
-- `useConstraints` matters here. `format` is `fmt::format` with one argument.
use traact_core.Prelude.{
  ℕ, List, [], ◌∷◌, ◌++◌, Bool, true, false, Option, none, some, String, if◌then◌else◌,
}
use traact_core.Prelude.Int.{ℤ}
use traact_core.Prelude.Maps.{find_key, emplace, store_key}
use traact_core.Exceptions.{Result, ok, throws, invalid_argument, out_of_range, ◌>>=◌}
use traact_core.Pattern.Build.{ComponentType}
use traact_core.Pattern.Instance.{get_component_type}
use traact_core.Dataflow.Graph.{
  TaskKind, Heap, TraactGraph, make_task, precede, succeed, succeed_inter_time_step,
}
use traact_core.Component.{GraphComponent}
use traact_core.Dataflow.Graph.Components.{at_task}

-- The tasks of the components of a module.
pub record ModuleTaskData : Type 0 where
  pub begin_components : List ℕ
  pub end_components : List ℕ

pub record ModuleMaps : Type 0 where
  pub component_modules : List (String × ModuleTaskData)
  pub module_map : List (String × Bool)

abbrev pub no_tasks : ModuleTaskData
no_tasks = record { begin_components = []; end_components = [] }

-- The `switch` of `extractModules`.
unfoldable pub add_module_task : ComponentType → ℕ → ModuleTaskData → Result ModuleTaskData
add_module_task type task m = elim type [
  | ComponentType.sync_source ↦ ok (record m { end_components = m.end_components ++ task ∷ [] })
  | ComponentType.async_functional ↦ throws invalid_argument
  | ComponentType.invalid ↦ throws invalid_argument
  | _ ↦ ok (record m { begin_components = m.begin_components ++ task ∷ [] })
]

abbrev or_no_tasks : Option ModuleTaskData → ModuleTaskData
or_no_tasks none = no_tasks
or_no_tasks (some m) = m

-- One round of `extractModules` for a module component; `constraints` is that of a new module.
unfoldable pub extract_module : ComponentType → ℕ → String → Bool → ModuleMaps → Result ModuleMaps
unfolding add_module_task
extract_module type task key constraints maps =
    add_module_task type task (or_no_tasks (find_key key maps.component_modules)) >>= λ m.
    ok (record {
      component_modules = store_key key m (emplace key no_tasks maps.component_modules);
      module_map = elim (find_key key maps.module_map) [
        | some _ ↦ maps.module_map
        | none ↦ emplace key constraints maps.module_map
      ];
    })

unfoldable pub extract_modules :
    ℤ → List (String × ℕ) → List GraphComponent → ModuleMaps → Result ModuleMaps
unfolding extract_module
extract_modules td tasks [] maps = ok maps
extract_modules td tasks (c ∷ cs) maps =
    let rest = extract_modules td tasks cs in
    elim c.shared_module [
      | none ↦ rest maps
      | some (key, constraints) ↦ at_task c.pattern.instance_id tasks >>= λ task.
          get_component_type td c.pattern >>= λ type.
          extract_module type task key constraints maps >>= λ more. rest more
    ]

-- The innermost loop: the task `last` precedes all of a list.
unfoldable pub precede_all : ℕ → List ℕ → Heap → Heap
precede_all last [] h = h
precede_all last (x ∷ xs) h = precede_all last xs (precede last x h)

-- The body of the two loops over components. `last` is another task than `sub`, so that the loop over
-- the successors of `sub` does not change them.
unfoldable pub link_component : ℕ → ℕ → ℕ → Heap → Heap
unfolding precede_all
link_component first last sub h =
    let k = succeed last sub (precede first sub h) in precede_all last (k sub).successors k

unfoldable pub link_components : ℕ → ℕ → List ℕ → Heap → Heap
unfolding link_component
link_components first last [] h = h
link_components first last (sub ∷ subs) h =
    link_components first last subs (link_component first last sub h)

abbrev pub is_empty : List ℕ → Bool
is_empty [] = true
is_empty (x ∷ xs) = false

-- The four tasks that the code chooses: `start_task`, `end_task`, `begin_components_end_task` and
-- `end_components_start_task`.
pub record ModuleEnds : Type 0 where
  pub start_task : ℕ
  pub end_task : ℕ
  pub begin_components_end_task : ℕ
  pub end_components_start_task : ℕ

unfoldable pub link_module : ModuleEnds → ModuleTaskData → Heap → Heap
unfolding link_components
link_module e components h =
    link_components e.end_components_start_task e.end_task components.end_components (
      link_components e.start_task e.begin_components_end_task components.begin_components
        (succeed_inter_time_step e.start_task e.end_task h))

module _ (format : String → String → String) where
  -- The tasks if both lists have components, and if one is empty.
  unfoldable pub make_with_middle : String → TraactGraph → ModuleEnds × TraactGraph
  make_with_middle key g =
      let (start, g1) = make_task (format "MODULE_START_{0}" key) TaskKind.control_flow_task g in
      let (last, g2) = make_task (format "MODULE_END_{0}" key) TaskKind.control_flow_task g1 in
      let (middle, g3) = make_task (format "MODULE_MIDDLE_{0}" key) TaskKind.module_task g2 in
      (
        record {
          start_task = start;
          end_task = last;
          begin_components_end_task = middle;
          end_components_start_task = middle;
        },
        g3,
      )

  unfoldable pub make_without_middle : String → TraactGraph → ModuleEnds × TraactGraph
  make_without_middle key g =
      let (start, g1) = make_task (format "MODULE_START_{0}" key) TaskKind.control_flow_task g in
      let (last, g2) = make_task (format "MODULE_END_{0}" key) TaskKind.module_task g1 in
      (
        record {
          start_task = start;
          end_task = last;
          begin_components_end_task = last;
          end_components_start_task = start;
        },
        g2,
      )

  unfoldable pub make_ends : String → ModuleTaskData → TraactGraph → ModuleEnds × TraactGraph
  unfolding make_with_middle make_without_middle
  make_ends key components g =
      if is_empty components.begin_components
      then make_without_middle key g
      else if is_empty components.end_components
      then make_without_middle key g
      else make_with_middle key g

  -- One round of `createTasksAndDependencies`.
  unfoldable pub create_module_task : String → ModuleTaskData → Bool → TraactGraph → TraactGraph
  unfolding make_ends link_module
  create_module_task key components false g = g
  create_module_task key components true g =
      let (e, m) = make_ends key components g in record m { heap = link_module e components m.heap }

  unfoldable pub create_tasks_and_dependencies :
      List (String × Bool) → List (String × ModuleTaskData) → TraactGraph → Result TraactGraph
  unfolding create_module_task
  create_tasks_and_dependencies module_map [] g = ok g
  create_tasks_and_dependencies module_map ((key, components) ∷ modules) g =
      elim (find_key key module_map) [
        | none ↦ throws out_of_range
        | some constraints ↦
            create_tasks_and_dependencies module_map modules
              (create_module_task key components constraints g)
      ]

  -- `buildGraph`.
  unfoldable pub build_modules : ℤ → List GraphComponent → TraactGraph → Result TraactGraph
  unfolding extract_modules create_tasks_and_dependencies
  build_modules td cs g =
      extract_modules td g.tasks cs (record { component_modules = []; module_map = [] }) >>= λ maps.
      create_tasks_and_dependencies maps.module_map maps.component_modules g
