-- ===== src/Dataflow/Graph/Components.antt =====
-- src/traact/dataflow/graph/builder/ComponentGraphBuilder.cpp: a task for each component, after the
-- tasks of the components that it reads. `components_` is the list of the set's elements in order.
use traact_core.Prelude.{ℕ, List, [], ◌∷◌, ◌++◌, none, some, String, eqb, if◌then◌else◌}
use traact_core.Prelude.Int.{ℤ}
use traact_core.Prelude.Maps.{find_key}
use traact_core.Exceptions.{
  Result, ok, throws, invalid_argument, out_of_range, undefined_access, ◌>>=◌,
}
use traact_core.Datatypes.{Concurrency}
use traact_core.Pattern.Build.{ComponentType}
use traact_core.Pattern.Instance.{
  PatternInstance, Found, port_id, get_component_type, get_concurrency, get_producer_ports,
}
use traact_core.Component.{GraphComponent}
use traact_core.Pattern.Graph.{GraphInstance, Place, connected_to_ptr}
use traact_core.Dataflow.Graph.{
  TaskKind, Heap, TraactGraph, make_task, precede, succeed, succeed_inter_time_step,
}

-- `TimeDomainBuffer::getComponentIndex`, on the ids of `buffer_config_`; an id that is not there
-- fails an assertion.
unfoldable pub get_component_index : String → List (ℕ × String) → Result ℕ
get_component_index id [] = throws undefined_access
get_component_index id ((index, name) ∷ config) =
    let rest = get_component_index id config in if eqb name id then ok index else rest

-- `prepareComponents`: the components that get a request callback, with the index that it is for.
unfoldable pub request_callback :
    ComponentType → List (ℕ × String) → String → Result (List (String × ℕ))
unfolding get_component_index
request_callback type config id = elim type [
  | ComponentType.async_source ↦ get_component_index id config >>= λ index. ok ((id, index) ∷ [])
  | ComponentType.internal_sync_source ↦
      get_component_index id config >>= λ index. ok ((id, index) ∷ [])
  | ComponentType.invalid ↦ throws invalid_argument
  | _ ↦ ok []
]

unfoldable pub prepare_components :
    ℤ → List (ℕ × String) → List GraphComponent → Result (List (String × ℕ))
unfolding request_callback
prepare_components td config [] = ok []
prepare_components td config (c ∷ cs) = get_component_type td c.pattern >>= λ type.
    request_callback type config c.pattern.instance_id >>= λ here.
    prepare_components td config cs >>= λ rest. ok (here ++ rest)

-- `createTask`.
unfoldable pub create_task : ComponentType → Result TaskKind
create_task type = elim type [
  | ComponentType.async_source ↦ ok TaskKind.source_task
  | ComponentType.internal_sync_source ↦ ok TaskKind.source_task
  | ComponentType.invalid ↦ throws invalid_argument
  | _ ↦ ok TaskKind.component_task
]

unfoldable pub create_tasks : ℤ → List GraphComponent → TraactGraph → Result TraactGraph
unfolding create_task
create_tasks td [] g = ok g
create_tasks td (c ∷ cs) g = get_component_type td c.pattern >>= λ type.
    create_task type >>= λ kind. create_tasks td cs (make_task c.pattern.instance_id kind g).1

-- `tasks.at(id)`.
unfoldable pub at_task : String → List (String × ℕ) → Result ℕ
at_task id tasks = elim (find_key id tasks) [ none ↦ throws out_of_range | some t ↦ ok t ]

-- The inner loop of `createDependencies`.
unfoldable pub precede_inputs : List (String × ℕ) → ℕ → List Place → Heap → Result Heap
unfolding at_task
precede_inputs tasks current [] h = ok h
precede_inputs tasks current ((d, _) ∷ places) h = at_task d.instance_id tasks >>= λ consumer.
    precede_inputs tasks current places (precede current consumer h)

unfoldable pub find_sync_source_start_point : ℤ → List (String × ℕ) → List GraphComponent → Result ℕ
unfolding at_task
find_sync_source_start_point td tasks [] = throws invalid_argument
find_sync_source_start_point td tasks (c ∷ cs) = get_component_type td c.pattern >>= λ type.
    let rest = find_sync_source_start_point td tasks cs in
    elim type [ ComponentType.async_source ↦ at_task c.pattern.instance_id tasks | _ ↦ rest ]

-- The `switch` and the last `if` of `createDependencies`.
unfoldable pub succeed_start :
    ℤ → List GraphComponent → List (String × ℕ) → ComponentType → ℕ → Heap → Result Heap
unfolding find_sync_source_start_point
succeed_start td all tasks type current h = elim type [
  | ComponentType.sync_source ↦
      find_sync_source_start_point td tasks all >>= λ start. ok (succeed current start h)
  | _ ↦ ok h
]

unfoldable pub succeed_self : Concurrency → ℕ → Heap → Heap
succeed_self Concurrency.serial current h = succeed_inter_time_step current current h
succeed_self Concurrency.unlimited current h = h

module _ (format : String → ℕ → String → String) (graph : GraphInstance) (td : ℤ) where
  unfoldable pub precede_ports :
      List (String × ℕ) → PatternInstance → ℕ → List Found → Heap → Result Heap
  unfolding precede_inputs
  precede_ports tasks c current [] h = ok h
  precede_ports tasks c current (f ∷ fs) h =
      connected_to_ptr format (port_id format c f) graph >>= λ places.
      precede_inputs tasks current places h >>= λ k. precede_ports tasks c current fs k

  -- One round of the loop of `createDependencies`.
  unfoldable pub create_dependency :
      List GraphComponent → List (String × ℕ) → GraphComponent → Heap → Result Heap
  unfolding precede_ports succeed_start succeed_self at_task
  create_dependency all tasks c h = at_task c.pattern.instance_id tasks >>= λ current.
      get_producer_ports td c.pattern >>= λ ports.
      precede_ports tasks c.pattern current ports h >>= λ h1.
      get_component_type td c.pattern >>= λ type.
      succeed_start td all tasks type current h1 >>= λ h2.
      get_concurrency td c.pattern >>= λ concurrency. ok (succeed_self concurrency current h2)

  unfoldable pub create_dependencies :
      List GraphComponent → List (String × ℕ) → List GraphComponent → Heap → Result Heap
  unfolding create_dependency
  create_dependencies all tasks [] h = ok h
  create_dependencies all tasks (c ∷ cs) h =
      create_dependency all tasks c h >>= λ k. create_dependencies all tasks cs k

  -- `buildGraph`, with the request callbacks that it sets.
  unfoldable pub build_components :
      List (ℕ × String)
      → List GraphComponent
      → TraactGraph
      → Result (List (String × ℕ) × TraactGraph)
  unfolding prepare_components create_tasks create_dependencies
  build_components config all g = prepare_components td config all >>= λ callbacks.
      create_tasks td all g >>= λ g1. create_dependencies all g1.tasks all g1.heap >>= λ heap.
      ok (callbacks, record g1 { heap = heap })
