-- ===== src/Pattern/Graph/Demo.antt =====
-- A graph with a camera and a tracker, for the examples.
use Prim.Native.String.{String}
use traact_core.Prelude.{ℕ, [], ◌∷◌, false, List}
use traact_core.Prelude.Int.{pos}
use traact_core.Datatypes.{Concurrency}
use traact_core.Exceptions.{Result, ok}
use traact_core.Pattern.Port.{Port, PortType}
use traact_core.Pattern.Build.{Pattern, ComponentType}
use traact_core.Pattern.Graph.{GraphInstance, new_graph, add_pattern}
use traact_core.Pattern.Graph.Connect.{connect}

-- A format that shows only the port's own name.
abbrev pub short_name : String → ℕ → String → String
short_name group index name = String.◌∷◌ "_" name

abbrev pub port_of : String → PortType → Port
port_of name type = record {
  name = name;
  datatype = "image";
  port_type = type;
  port_index = 0;
  time_domain = pos 0;
}

abbrev pub pattern_of : String → ComponentType → List Port → List Port → Pattern
pattern_of name type outputs inputs = record {
  name = name;
  display_name = name;
  description = "";
  tags = [];
  concurrency = Concurrency.serial ∷ [];
  time_domain_component_type = type ∷ [];
  port_groups =
      record {
        name = "Default";
        group_index = 0;
        min_count = pos 1;
        max_count = pos 1;
        producer_ports = outputs;
        consumer_ports = inputs;
      }
      ∷ [];
  is_group_port = false;
}

abbrev pub camera : Pattern
camera = pattern_of "Camera" ComponentType.async_source (port_of "image" PortType.producer ∷ []) []

abbrev pub tracker : Pattern
tracker =
    pattern_of "Tracker" ComponentType.sync_functional [] (port_of "in" PortType.consumer ∷ [])

abbrev pub graph_of : Result GraphInstance → GraphInstance
graph_of (ok g) = g
graph_of _ = record { name = ""; pattern_instances = [] }

abbrev pub g1 : Result GraphInstance
g1 = add_pattern "cam" camera (pos 0) (new_graph "demo")

abbrev pub g2 : Result GraphInstance
g2 = add_pattern "track" tracker (pos 0) (graph_of g1)

abbrev pub g3 : Result GraphInstance
g3 = connect short_name 3 "cam" "image" "track" "in" (graph_of g2)
