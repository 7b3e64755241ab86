-- ===== src/Dataflow/Graph.antt =====
-- src/traact/dataflow/graph/task/TraactTask.cpp and TraactGraph.h: the tasks of a time step and the
-- order they run in. A pointer to a task is its address, and a set of pointers is the list of its
-- addresses in their order.
pub mod Links
pub mod Grows
pub mod Components
pub mod Order
pub mod Tasks
pub mod Dependencies
pub mod Modules
pub mod Surround
pub mod Chosen
pub mod Placed
mod Examples
use traact_core.Prelude.{
  ℕ, ◌+◌, ltb, ◌==◌, Bool, true, false, ◌||◌, List, [], ◌∷◌, String, if◌then◌else◌,
}
use traact_core.Prelude.Maps.{emplace}
use traact_core.Buffer.TimeStepBuffer.{update}

-- The classes that derive from `TraactTask`.
pub data TaskKind : Type 0 where
  component_task source_task control_flow_task module_task : TaskKind

-- `id` is what `getId` gives.
pub record TraactTask : Type 0 where
  pub id : String
  pub kind : TaskKind
  pub predecessors : List ℕ
  pub successors : List ℕ
  pub predecessors_inter_time_step : List ℕ
  pub successors_inter_time_step : List ℕ

abbrev pub Heap : Type 0
Heap = ℕ → TraactTask

-- Whether a set has an address.
unfoldable pub has : ℕ → List ℕ → Bool
has x [] = false
has x (y ∷ ys) = y == x || has x ys

-- `emplace` on a `std::set`.
unfoldable pub emplace_ref : ℕ → List ℕ → List ℕ
emplace_ref x [] = x ∷ []
emplace_ref x (y ∷ ys) =
    let rest = emplace_ref x ys in
    if y == x then y ∷ ys else if ltb x y then x ∷ y ∷ ys else y ∷ rest

abbrev pub add_successor : ℕ → ℕ → Heap → Heap
add_successor task other h =
    update h task (record (h task) { successors = emplace_ref other (h task).successors })

abbrev pub add_predecessor : ℕ → ℕ → Heap → Heap
add_predecessor task other h =
    update h task (record (h task) { predecessors = emplace_ref other (h task).predecessors })

abbrev pub add_successor_inter : ℕ → ℕ → Heap → Heap
add_successor_inter task other h = update h task (record (h task) {
  successors_inter_time_step = emplace_ref other (h task).successors_inter_time_step;
})

abbrev pub add_predecessor_inter : ℕ → ℕ → Heap → Heap
add_predecessor_inter task other h = update h task (record (h task) {
  predecessors_inter_time_step = emplace_ref other (h task).predecessors_inter_time_step;
})

unfoldable pub succeed : ℕ → ℕ → Heap → Heap
succeed this predecessor h = add_predecessor this predecessor (add_successor predecessor this h)

unfoldable pub precede : ℕ → ℕ → Heap → Heap
precede this successor h = add_successor this successor (add_predecessor successor this h)

unfoldable pub succeed_inter_time_step : ℕ → ℕ → Heap → Heap
succeed_inter_time_step this predecessor h =
    add_predecessor_inter this predecessor (add_successor_inter predecessor this h)

unfoldable pub precede_inter_time_step : ℕ → ℕ → Heap → Heap
precede_inter_time_step this successor h =
    add_successor_inter this successor (add_predecessor_inter successor this h)

unfoldable pub is_start_point : TraactTask → Bool
is_start_point t = elim t.predecessors [ [] ↦ true | _ ∷ _ ↦ false ]

unfoldable pub is_end_point : TraactTask → Bool
is_end_point t = elim t.successors [ [] ↦ true | _ ∷ _ ↦ false ]

unfoldable pub is_source : TraactTask → Bool
is_source t = elim t.kind [ TaskKind.source_task ↦ true | _ ↦ false ]

-- `next` is an address that no task has yet.
pub record TraactGraph : Type 0 where
  pub heap : Heap
  pub next : ℕ
  pub tasks : List (String × ℕ)

abbrev pub new_task : String → TaskKind → TraactTask
new_task id kind = record {
  id = id;
  kind = kind;
  predecessors = [];
  successors = [];
  predecessors_inter_time_step = [];
  successors_inter_time_step = [];
}

-- `tasks.emplace(id, std::make_shared<...>(...))`, and the address of the new task.
unfoldable pub make_task : String → TaskKind → TraactGraph → ℕ × TraactGraph
make_task id kind g = (
  g.next,
  record {
    heap = update g.heap g.next (new_task id kind);
    next = g.next + 1;
    tasks = emplace id g.next g.tasks;
  },
)

abbrev pub empty_graph : TraactGraph
empty_graph = record { heap = λ x. new_task "" TaskKind.control_flow_task; next = 0; tasks = [] }

unfoldable pub clear_task : ℕ → Heap → Heap
clear_task this h = update h this (new_task (h this).id (h this).kind)
