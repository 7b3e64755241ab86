-- ===== src/Buffer/TimeDomainBuffer/Examples.antt =====
-- The buffers of a camera and of a tracker that is connected to it.
use mathlib.Core.List.{Memᴰ}
use mathlib.Core.List.Memᴰ
use traact_core.Prelude.{
  ◌≡◌, refl, sym, ap, subst, ◌∙◌, inl, inr, [], ◌∷◌, true, List, none, some, get_elem?,
}
use traact_core.Prelude.Int.{pos}
use traact_core.Prelude.Maps.{find_key, emplace, store_key}
use traact_core.Exceptions.{Result, ok, ok_injective}
use traact_core.Datatypes.{Timestamp}
use traact_core.Pattern.Port.{PortType, vector_get_for_name}
use traact_core.Pattern.Build.{ComponentType}
use traact_core.Pattern.Instance.{
  PatternInstance, PortId, Found, get_component_type, get_producer_ports, get_consumer_ports,
  get_port_index, port_id, get_port, get_port_list, new_pattern_instance, get_producer_port,
  get_consumer_port, get_time_domain, get_port_group_offset, is_in_time_domain,
}
use traact_core.Pattern.Graph.{
  GraphInstance, at_pattern, connected_to_ptr, add_pattern, new_graph, would_connect_to_self,
  walk_patterns,
}
use traact_core.Pattern.Graph.Connect.{connect}
use traact_core.Pattern.Graph.Demo.{short_name, graph_of, g3, camera}
use traact_core.Component.{GraphComponent, get_patterns_for_time_domain}
use traact_core.Buffer.ComponentBuffer.{
  ComponentBuffer, PortStates, get_output, is_input_valid, get_input_timestamp,
}
use traact_core.Buffer.TimeDomainBuffer.{Typed, TimeDomainBuffer, ordered_components, init}
use traact_core.Buffer.TimeDomainBuffer.Indices.{Output, IsSingle}
use traact_core.Buffer.TimeDomainBuffer.Shared.{init-Shared}

abbrev demo : GraphInstance
demo = graph_of g3

abbrev blank : PatternInstance
blank = record {
  instance_id = "";
  display_name = "";
  local_pattern = camera;
  port_groups = [];
  port_group_name_to_index = [];
  local_to_global_time_domain = [];
}

abbrev pattern_or_blank : Result PatternInstance → PatternInstance
pattern_or_blank (ok c) = c
pattern_or_blank _ = blank

abbrev cam : PatternInstance
cam = pattern_or_blank (at_pattern "cam" demo)

abbrev track : PatternInstance
track = pattern_or_blank (at_pattern "track" demo)

-- The tracker stands first in the set, and the camera is ordered before it.
abbrev components : List GraphComponent
components =
    record { pattern = track; shared_module = none }
    ∷ record { pattern = cam; shared_module = none }
    ∷ []

abbrev ordered : List Typed
ordered = (ComponentType.async_source, cam) ∷ (ComponentType.sync_functional, track) ∷ []

abbrev no_buffer : TimeDomainBuffer
no_buffer = record {
  count_async_sources = 0;
  count_internal_sync_sources = 0;
  data_names = [];
  port_to_buffer_index = λ id. none;
  buffer_config_list = [];
  component_buffers = [];
}

abbrev buffer_or_none : Result TimeDomainBuffer → TimeDomainBuffer
buffer_or_none (ok b) = b
buffer_or_none _ = no_buffer

abbrev built : Result TimeDomainBuffer
built = init short_name demo (pos 0) (λ name. true) components

abbrev ports_of : Result (List Found) → List Found
ports_of (ok fs) = fs
ports_of _ = []

abbrev outputs : List Found
outputs = ports_of (get_producer_ports (pos 0) cam)

abbrev inputs : List Found
inputs = ports_of (get_consumer_ports (pos 0) track)

abbrev no_port : Found
no_port = (
  record {
    port_group = record {
      name = "";
      group_index = 0;
      min_count = pos 0;
      max_count = pos 0;
      producer_ports = [];
      consumer_ports = [];
    };
    port_group_instance_index = 0;
    producer_ports = [];
    consumer_ports = [];
  },
  record {
    port = record {
      name = "";
      datatype = "";
      port_type = PortType.none_port;
      port_index = 0;
      time_domain = pos 0;
    };
    connected_to = ("", "");
  },
)

abbrev first_of : List Found → Found
first_of [] = no_port
first_of (f ∷ fs) = f

abbrev image : Found
image = first_of outputs

abbrev image_in : Found
image_in = first_of inputs

ordered-ok : ordered_components (pos 0) components ≡ ok ordered
unfolding ordered_components get_patterns_for_time_domain get_component_type is_in_time_domain
    at_pattern find_key connect add_pattern new_graph new_pattern_instance emplace get_producer_port
    vector_get_for_name get_consumer_port get_time_domain would_connect_to_self store_key
    get_producer_ports get_consumer_ports
ordered-ok = refl

built-ok : built ≡ ok (buffer_or_none built)
unfolding init get_patterns_for_time_domain get_component_type is_in_time_domain connected_to_ptr
    get_port port_id get_port_list walk_patterns get_port_index get_port_group_offset at_pattern
    find_key connect add_pattern new_graph new_pattern_instance emplace get_producer_port
    vector_get_for_name get_consumer_port get_time_domain would_connect_to_self store_key
    get_producer_ports get_consumer_ports
built-ok = refl

outputs-ok : get_producer_ports (pos 0) cam ≡ ok (image ∷ [])
unfolding at_pattern find_key connect add_pattern new_graph new_pattern_instance emplace
    get_producer_port vector_get_for_name get_consumer_port get_time_domain would_connect_to_self
    store_key get_producer_ports get_consumer_ports
outputs-ok = refl

no_outputs-ok : get_producer_ports (pos 0) track ≡ ok []
unfolding at_pattern find_key connect add_pattern new_graph new_pattern_instance emplace
    get_producer_port vector_get_for_name get_consumer_port get_time_domain would_connect_to_self
    store_key get_producer_ports get_consumer_ports
no_outputs-ok = refl

inputs-ok : get_consumer_ports (pos 0) track ≡ ok (image_in ∷ [])
unfolding at_pattern find_key connect add_pattern new_graph new_pattern_instance emplace
    get_producer_port vector_get_for_name get_consumer_port get_time_domain would_connect_to_self
    store_key get_producer_ports get_consumer_ports
inputs-ok = refl

image-index : get_port_index cam image.0 image.1 ≡ ok 0
unfolding get_port_index at_pattern find_key connect add_pattern new_graph new_pattern_instance
    emplace get_producer_port vector_get_for_name get_consumer_port get_time_domain
    would_connect_to_self store_key get_producer_ports get_consumer_ports
image-index = refl

image_in-index : get_port_index track image_in.0 image_in.1 ≡ ok 0
unfolding get_port_index at_pattern find_key connect add_pattern new_graph new_pattern_instance
    emplace get_producer_port vector_get_for_name get_consumer_port get_time_domain
    would_connect_to_self store_key get_producer_ports get_consumer_ports
image_in-index = refl

image-connected :
    connected_to_ptr short_name (port_id short_name cam image) demo ≡ ok ((track, image_in) ∷ [])
unfolding connected_to_ptr get_port port_id get_port_list walk_patterns at_pattern find_key connect
    add_pattern new_graph new_pattern_instance emplace get_producer_port vector_get_for_name
    get_consumer_port get_time_domain would_connect_to_self store_key get_producer_ports
    get_consumer_ports
image-connected = refl

only_image :
    (s : PortId) → Output short_name demo (pos 0) ordered s → port_id short_name cam image ≡ s
only_image s (c, ports, f, at, listed, here, named) = elim (Memᴰ.cases_cons at) [
  | inl same ↦
      let listed' = subst (λ (d : Typed). get_producer_ports (pos 0) d.1 ≡ ok ports) same listed in
      let all = ok_injective (sym listed' ∙ outputs-ok) in
      let f_same = Memᴰ.eq_of_singleton (subst (Memᴰ f) all here) in
      ap (port_id short_name cam) (sym f_same)
      ∙ ap (λ (d : Typed). port_id short_name d.1 f) (sym same)
      ∙ named
  | inr later ↦
      let same = Memᴰ.eq_of_singleton later in
      let listed' = subst (λ (d : Typed). get_producer_ports (pos 0) d.1 ≡ ok ports) same listed in
      let all = ok_injective (sym listed' ∙ no_outputs-ok) in
      absurd (Memᴰ.not-nil (subst (Memᴰ f) all here))
]

ordered-IsSingle : IsSingle short_name demo (pos 0) (Output short_name demo (pos 0) ordered)
ordered-IsSingle s t id p q r u = sym (only_image s p) ∙ only_image t q

init-Shared_example :
    (producer consumer : ComponentBuffer) × (get_elem? (buffer_or_none built).component_buffers 0
      ≡ some producer)
    × (get_elem? (buffer_or_none built).component_buffers 1 ≡ some consumer)
    × ((ts : Timestamp) (s : PortStates)
        → (t : PortStates) × (get_output 0 ts producer s ≡ ok t)
          × (is_input_valid 0 consumer t ≡ ok true)
          × (get_input_timestamp 0 consumer t ≡ ok ts))
init-Shared_example =
    init-Shared short_name demo (pos 0) (λ name. true) components ordered (buffer_or_none built) 0 1
      0 0 (ComponentType.async_source, cam) (ComponentType.sync_functional, track) (image ∷ [])
      (image_in ∷ []) image image_in ((track, image_in) ∷ []) ordered-ok built-ok ordered-IsSingle
      refl refl outputs-ok inputs-ok (image-index, tt) (image_in-index, tt) refl refl
      image-connected (Memᴰ.head refl)
