-- ===== src/Pattern/Examples.antt =====
-- The theorems about patterns at a concrete one.
use traact_core.Pattern.Port.{
  vector_contains_name, get_port_count, Port, PortGroup, PortType, new_group,
}
use traact_core.Pattern.Build.{
  begin_port_group, add_producer_port, add_consumer_port, ComponentType, Pattern, new_pattern,
  add_port, name_in_use,
}
use traact_core.Prelude.{◌≡◌, refl, List, [], ◌∷◌, false, ◌⊎◌}
use traact_core.Prelude.Int.{pos}
use traact_core.Datatypes.{Concurrency}
use traact_core.Exceptions.{Result, ok, throws, invalid_argument, ◌>>=◌}
use traact_core.Pattern.Groups.{Added, HasName, add_port-IsGroup}
use traact_core.Pattern.Numbering.{IsGroup, append-IsNumbered, append_names}
use traact_core.Pattern.Calls.{AllGroups, Call, calls, built-AllGroups}

abbrev image : Port
image = record {
  name = "image";
  datatype = "Image";
  port_type = PortType.producer;
  port_index = 0;
  time_domain = pos 0;
}

abbrev one_port : PortGroup
one_port = record (new_group "Default" 0 (pos 1) (pos 1)) { producer_ports = image ∷ [] }

one_port-IsGroup : IsGroup one_port
unfolding vector_contains_name traact_core.Pattern.Port.count_ports new_group
one_port-IsGroup = record {
  producers = append-IsNumbered [] image (λ i p h. cc) refl;
  consumers = λ i p h. cc;
  producer_names = append_names [] image (λ i j p q h k e. cc) refl;
  consumer_names = λ i j p q h k e. cc;
  separate = λ i j p q h k e. cc;
}

-- The group has a port, but none with that name.
add_port-IsGroup_example :
    HasName "depth" one_port
      × (add_port "depth" (pos 0) PortType.producer "Image" one_port ≡ throws invalid_argument)
    ⊎ (¬ HasName "depth" one_port)
      × Added one_port (add_port "depth" (pos 0) PortType.producer "Image" one_port)
add_port-IsGroup_example =
    add_port-IsGroup "depth" (pos 0) PortType.producer "Image" one_port one_port-IsGroup

abbrev building : List Call
building =
    Call.consumer_port "input" "Image" (pos 0)
    ∷ Call.begin_group "Poses" (pos 0) (pos 9)
    ∷ Call.producer_port "pose" "Pose" (pos 0)
    ∷ Call.producer_port "quality" "Float" (pos 0)
    ∷ Call.end_group
    ∷ []

abbrev value : Result Pattern → Pattern
value (ok p) = p
value _ = record {
  name = "";
  display_name = "";
  description = "";
  tags = [];
  concurrency = [];
  time_domain_component_type = [];
  port_groups = [];
  is_group_port = false;
}

abbrev built : Pattern
built = value (
    new_pattern "tracker" Concurrency.serial ComponentType.sync_functional >>= λ q.
    calls building q)

built-AllGroups_example : AllGroups 0 built.port_groups
unfolding new_pattern calls add_consumer_port add_port name_in_use vector_contains_name new_group
    get_port_count add_producer_port begin_port_group
built-AllGroups_example =
    built-AllGroups "tracker" Concurrency.serial ComponentType.sync_functional building built refl
