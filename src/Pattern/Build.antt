-- ===== src/Pattern/Build.antt =====
-- src/traact/pattern/Pattern.cpp: how a pattern is put together.
use traact_core.Prelude.{
  List, [], ◌∷◌, ◌++◌, Bool, true, false, ◌||◌, String, if◌then◌else◌, length,
}
use traact_core.Prelude.Int.{ℤ, pos}
use traact_core.Datatypes.{Concurrency}
use traact_core.Exceptions.{Result, ok, throws, invalid_argument, undefined_access, ◌>>=◌}
use traact_core.Pattern.Port.{
  Port, PortGroup, PortType, new_group, get_port_count, vector_contains_name,
}

pub data ComponentType : Type 0 where
  invalid async_source internal_sync_source sync_source : ComponentType
  sync_functional async_functional sync_sink async_sink : ComponentType

pub record Pattern : Type 0 where
  pub name : String
  pub display_name : String
  pub description : String
  pub tags : List String
  pub concurrency : List Concurrency
  pub time_domain_component_type : List ComponentType
  pub port_groups : List PortGroup
  pub is_group_port : Bool

abbrev pub add_tag : String → Pattern → Pattern
add_tag tag p = record p { tags = p.tags ++ tag ∷ [] }

abbrev concurrency_tag : Concurrency → String
concurrency_tag Concurrency.serial = "Serial"
concurrency_tag Concurrency.unlimited = "Unlimited"

-- The two `switch` statements of the constructor.
abbrev timing_tag : ComponentType → Result String
timing_tag ComponentType.async_sink = ok "Asynchronous"
timing_tag ComponentType.async_functional = ok "Asynchronous"
timing_tag ComponentType.async_source = ok "Asynchronous"
timing_tag ComponentType.internal_sync_source = ok "Asynchronous"
timing_tag ComponentType.sync_source = ok "Synchronous"
timing_tag ComponentType.sync_functional = ok "Synchronous"
timing_tag ComponentType.sync_sink = ok "Synchronous"
timing_tag ComponentType.invalid = throws invalid_argument

abbrev role_tag : ComponentType → Result String
role_tag ComponentType.sync_source = ok "Source"
role_tag ComponentType.async_source = ok "Source"
role_tag ComponentType.internal_sync_source = ok "Source"
role_tag ComponentType.async_functional = ok "Function"
role_tag ComponentType.sync_functional = ok "Function"
role_tag ComponentType.sync_sink = ok "Sink"
role_tag ComponentType.async_sink = ok "Sink"
role_tag ComponentType.invalid = throws invalid_argument

-- The constructor with a name, a concurrency and a component type.
unfoldable pub new_pattern : String → Concurrency → ComponentType → Result Pattern
new_pattern name concurrency component_type =
    let start : Pattern = record {
      name = name;
      display_name = name;
      description = "";
      tags = [];
      concurrency = concurrency ∷ [];
      time_domain_component_type = component_type ∷ [];
      port_groups = new_group "Default" 0 (pos 1) (pos 1) ∷ [];
      is_group_port = false;
    } in
    let with_concurrency = add_tag (concurrency_tag concurrency) start in
    timing_tag component_type >>= λ timing.
    role_tag component_type >>= λ role. ok (add_tag role (add_tag timing with_concurrency))

-- `checkName`.
unfoldable pub name_in_use : String → PortGroup → Bool
name_in_use name group =
    vector_contains_name (λ (p : Port). p.name) group.producer_ports name
    || vector_contains_name (λ (p : Port). p.name) group.consumer_ports name

-- `addPort`: any type but PRODUCER adds a consumer.
unfoldable pub add_port : String → ℤ → PortType → String → PortGroup → Result PortGroup
add_port port_name time_domain port_type type_name group =
    if name_in_use port_name group then throws invalid_argument else elim port_type [
      | PortType.producer ↦ get_port_count PortType.producer time_domain group >>= λ port_index.
          ok (record group {
            producer_ports =
                group.producer_ports
                ++ record {
                  name = port_name;
                  datatype = type_name;
                  port_type = PortType.producer;
                  port_index = port_index;
                  time_domain = time_domain;
                }
                  ∷ [];
          })
      | _ ↦ get_port_count PortType.consumer time_domain group >>= λ port_index. ok (record group {
        consumer_ports =
            group.consumer_ports
            ++ record {
              name = port_name;
              datatype = type_name;
              port_type = PortType.consumer;
              port_index = port_index;
              time_domain = time_domain;
            }
              ∷ [];
      })
    ]

-- Changing `port_groups.front()`, and `port_groups.back()`.
unfoldable pub on_front : (PortGroup → Result PortGroup) → List PortGroup → Result (List PortGroup)
on_front f [] = throws undefined_access
on_front f (g ∷ gs) = f g >>= λ h. ok (h ∷ gs)

unfoldable pub on_back : (PortGroup → Result PortGroup) → List PortGroup → Result (List PortGroup)
on_back f [] = throws undefined_access
on_back f (g ∷ []) = f g >>= λ h. ok (h ∷ [])
on_back f (g ∷ k ∷ gs) = on_back f (k ∷ gs) >>= λ hs. ok (g ∷ hs)

unfoldable pub add_to_group : (PortGroup → Result PortGroup) → Pattern → Result Pattern
unfolding on_front on_back
add_to_group f p =
    (if p.is_group_port then on_back f p.port_groups else on_front f p.port_groups) >>= λ groups.
    ok (record p { port_groups = groups })

-- The argument `port_index` of the two functions is not used.
unfoldable pub add_producer_port : String → String → ℤ → Pattern → Result Pattern
unfolding add_to_group
add_producer_port port_name type_name time_domain p =
    add_to_group (add_port port_name time_domain PortType.producer type_name) p

unfoldable pub add_consumer_port : String → String → ℤ → Pattern → Result Pattern
unfolding add_to_group
add_consumer_port port_name type_name time_domain p =
    add_to_group (add_port port_name time_domain PortType.consumer type_name) p

unfoldable pub begin_port_group : String → ℤ → ℤ → Pattern → Pattern
begin_port_group name min_count max_count p = record p {
  is_group_port = true;
  port_groups = p.port_groups ++ new_group name (length p.port_groups) min_count max_count ∷ [];
}

unfoldable pub end_port_group : Pattern → Pattern
end_port_group p = record p { is_group_port = false }

unfoldable pub add_time_domain : ComponentType → Pattern → Pattern
add_time_domain component_type p = record p {
  time_domain_component_type = p.time_domain_component_type ++ component_type ∷ [];
}

unfoldable pub has_producer_ports : List PortGroup → Bool
has_producer_ports [] = false
has_producer_ports (g ∷ gs) =
    let rest = has_producer_ports gs in elim g.producer_ports [ [] ↦ rest | _ ∷ _ ↦ true ]

unfoldable pub has_consumer_ports : List PortGroup → Bool
has_consumer_ports [] = false
has_consumer_ports (g ∷ gs) =
    let rest = has_consumer_ports gs in elim g.consumer_ports [ [] ↦ rest | _ ∷ _ ↦ true ]
