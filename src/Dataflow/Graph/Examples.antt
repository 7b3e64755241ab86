-- ===== src/Dataflow/Graph/Examples.antt =====
-- The task graph of a camera and a tracker that is connected to it, with and without a module.
use Prim.Native.String.{String}
use mathlib.Core.List.{Memᴰ}
use traact_core.Prelude.{ℕ, ◌≡◌, refl, [], ◌∷◌, true, List, none}
use traact_core.Prelude.Int.{pos}
use traact_core.Prelude.Maps.{find_key, emplace, store_key}
use traact_core.Pattern.Port.{vector_get_for_name}
use traact_core.Pattern.Graph.Connect.{connect}
use traact_core.Exceptions.{Result, ok}
use traact_core.Pattern.Instance.{
  PatternInstance, get_component_type, get_producer_ports, get_concurrency, port_id, get_port,
  new_pattern_instance, get_producer_port, get_consumer_port, get_time_domain, get_port_list,
}
use traact_core.Pattern.Graph.{
  GraphInstance, at_pattern, connected_to_ptr, add_pattern, new_graph, would_connect_to_self,
  walk_patterns,
}
use traact_core.Pattern.Graph.Demo.{short_name, graph_of, g3, camera}
use traact_core.Dataflow.Graph.{
  TraactGraph, empty_graph, make_task, has, emplace_ref, precede, succeed, succeed_inter_time_step,
}
use traact_core.Dataflow.Graph.Links.{links}
use traact_core.Component.{GraphComponent}
use traact_core.Dataflow.Graph.Components.{build_components}
use traact_core.Dataflow.Graph.Tasks.{IsOrdered, build_components-IsOrdered}
use traact_core.Dataflow.Graph.Modules.{ModuleTaskData, create_tasks_and_dependencies}
use traact_core.Dataflow.Graph.Placed.{IsPlaced, create_tasks_and_dependencies-IsPlaced}

abbrev demo : GraphInstance
demo = graph_of g3

abbrev or_else : PatternInstance → Result PatternInstance → PatternInstance
or_else d (ok c) = c
or_else d _ = d

abbrev blank : PatternInstance
blank = record {
  instance_id = "";
  display_name = "";
  local_pattern = camera;
  port_groups = [];
  port_group_name_to_index = [];
  local_to_global_time_domain = [];
}

abbrev component_of : String → GraphComponent
component_of id = record { pattern = or_else blank (at_pattern id demo); shared_module = none }

abbrev components : List GraphComponent
components = component_of "cam" ∷ component_of "track" ∷ []

abbrev task_graph : Result (List (String × ℕ) × TraactGraph) → TraactGraph
task_graph (ok (callbacks, g)) = g
task_graph _ = empty_graph

abbrev built : Result (List (String × ℕ) × TraactGraph)
built =
    build_components short_name demo (pos 0) ((0, "cam") ∷ (1, "track") ∷ []) components empty_graph

built-ok : built ≡ ok (("cam", 0) ∷ [], task_graph built)
unfolding build_components get_component_type at_pattern find_key connect add_pattern new_graph
    new_pattern_instance emplace get_producer_port vector_get_for_name get_consumer_port
    get_time_domain would_connect_to_self store_key make_task get_producer_ports connected_to_ptr
    get_port port_id get_concurrency walk_patterns get_port_list
built-ok = refl

built-links : links (task_graph built).heap 0 1 ≡ true
unfolding build_components get_component_type at_pattern find_key connect add_pattern new_graph
    new_pattern_instance emplace get_producer_port vector_get_for_name get_consumer_port
    get_time_domain would_connect_to_self store_key make_task get_producer_ports connected_to_ptr
    get_port port_id get_concurrency walk_patterns get_port_list links has succeed_inter_time_step
    precede emplace_ref
built-links = refl

build_components-IsOrdered_example : IsOrdered short_name demo (pos 0) components (task_graph built)
build_components-IsOrdered_example =
    build_components-IsOrdered short_name demo (pos 0) ((0, "cam") ∷ (1, "track") ∷ []) components
      (("cam", 0) ∷ []) (task_graph built) built-ok

-- The camera is a component of a module.
abbrev camera_module : ModuleTaskData
camera_module = record { begin_components = 0 ∷ []; end_components = [] }

-- `fmt::format`, but with the text in place of the key.
abbrev only_text : String → String → String
only_text text key = text

-- The camera before the tracker.
abbrev pair : TraactGraph
pair = record empty_graph { heap = precede 0 1 empty_graph.heap; next = 2 }

abbrev graph_or_empty : Result TraactGraph → TraactGraph
graph_or_empty (ok g) = g
graph_or_empty _ = empty_graph

abbrev with_module : Result TraactGraph
with_module =
    create_tasks_and_dependencies only_text (("m", true) ∷ []) (("m", camera_module) ∷ []) pair

with_module-ok : with_module ≡ ok (graph_or_empty with_module)
unfolding create_tasks_and_dependencies find_key
with_module-ok = refl

-- The start of the module is task 2, and the task that runs it is task 3.
with_module-links :
    (links (graph_or_empty with_module).heap 0 3 ≡ true)
    × (links (graph_or_empty with_module).heap 3 1 ≡ true)
unfolding create_tasks_and_dependencies find_key links has succeed make_task emplace_ref precede
    succeed_inter_time_step
with_module-links = (refl, refl)

create_tasks_and_dependencies-IsPlaced_example :
    IsPlaced camera_module pair (graph_or_empty with_module)
unfolding find_key
create_tasks_and_dependencies-IsPlaced_example =
    create_tasks_and_dependencies-IsPlaced only_text (("m", true) ∷ []) (("m", camera_module) ∷ [])
      pair (graph_or_empty with_module) "m" camera_module with_module-ok (Memᴰ.head refl) refl
