-- ===== src/Buffer/TimeDomainBuffer.antt =====
-- src/traact/buffer/TimeDomainBuffer.cpp, and the constructor of TimeStepBuffer.cpp: one buffer for
-- each output port, which the inputs that are connected to it share. `known` tells which data types
-- have a factory; the objects that factories make are not modelled.
pub mod Indices
pub mod Local
pub mod Shared
mod Examples
use traact_core.Prelude.{
  ℕ, zero, suc, ◌+◌, ltb, leb, List, [], ◌∷◌, ◌++◌, Bool, true, false, Option, none, some, String,
  if◌then◌else◌, length, set, replicate,
}
use traact_core.Prelude.Int.{ℤ, pos}
use traact_core.Exceptions.{Result, ok, throws, undefined_access, ◌>>=◌}
use traact_core.Pattern.Port.{PortGroup, PortType}
use traact_core.Pattern.Build.{ComponentType}
use traact_core.Pattern.Instance.{
  PatternInstance, PortId, Found, port_id, get_component_type, get_producer_ports,
  get_consumer_ports, get_port_index, get_port_group_offset,
}
use traact_core.Pattern.Graph.{GraphInstance, Place, connected_to_ptr, eqb_id}
use traact_core.Component.{GraphComponent, get_patterns_for_time_domain}
use traact_core.Buffer.ComponentBuffer.{PortGroupConfig, ComponentBuffer}
use traact_core.Buffer.TimeStepBuffer.{TimeStepBuffer, update, cancel_source}

pub record BufferConfig : Type 0 where
  pub component_type : ComponentType
  pub instance_id : String
  pub buffer_to_port_input : List (ℕ × ℕ)
  pub port_group_config_input : List PortGroupConfig
  pub buffer_to_port_output : List (ℕ × ℕ)
  pub port_group_config_output : List PortGroupConfig

-- `createObjects`: the names of the objects that are made, `data_name_`.
unfoldable pub create_objects : (String → Bool) → List String → List String
create_objects known [] = []
create_objects known (name ∷ names) =
    let rest = create_objects known names in if known name then name ∷ rest else rest

-- The values of the enumeration.
abbrev pub type_value : ComponentType → ℕ
type_value ComponentType.invalid = 0
type_value ComponentType.async_source = 1
type_value ComponentType.internal_sync_source = 2
type_value ComponentType.sync_source = 3
type_value ComponentType.sync_functional = 4
type_value ComponentType.async_functional = 5
type_value ComponentType.sync_sink = 6
type_value ComponentType.async_sink = 7

abbrev pub Typed : Type 0
Typed = ComponentType × PatternInstance

unfoldable pub with_types : ℤ → List GraphComponent → Result (List Typed)
with_types td [] = ok []
with_types td (c ∷ cs) = get_component_type td c.pattern >>= λ type.
    with_types td cs >>= λ rest. ok ((type, c.pattern) ∷ rest)

-- `std::sort` by type. It may put components of one type in any order; here they keep theirs.
unfoldable pub insert_typed : Typed → List Typed → List Typed
insert_typed c [] = c ∷ []
insert_typed (t, c) ((u, d) ∷ ds) =
    let rest = insert_typed (t, c) ds in
    if leb (type_value t) (type_value u) then (t, c) ∷ (u, d) ∷ ds else (u, d) ∷ rest

unfoldable pub sort_typed : List Typed → List Typed
unfolding insert_typed
sort_typed [] = []
sort_typed (c ∷ cs) = insert_typed c (sort_typed cs)

-- `port_to_buffer_index_`, and `map[id] = index`.
abbrev pub Indices : Type 0
Indices = PortId → Option ℕ

abbrev pub store_index : PortId → ℕ → Indices → Indices
store_index id index m other = if eqb_id id other then some index else m other

-- `map[id]`, which makes an entry 0 for an id that has none.
abbrev pub index_or_zero : Option ℕ → ℕ
index_or_zero none = 0
index_or_zero (some index) = index

unfoldable pub count_types : ComponentType → List Typed → ℕ
count_types type [] = 0
count_types type ((t, c) ∷ cs) =
    let rest = count_types type cs in
    if leb (type_value t) (type_value type)
    then if leb (type_value type) (type_value t) then suc rest else rest
    else rest

-- What the first loop of `init` collects.
pub record Gathered : Type 0 where
  pub buffer_datatype : List String
  pub port_to_buffer_index : Indices

-- The second loop of `createLocalBuffer`: an access beyond a vector is undefined.
unfoldable pub fill_local : ℕ → List (ℕ × ℕ) → List ℕ → Result (List ℕ)
fill_local buffers [] local = ok local
fill_local buffers ((buffer, port) ∷ pairs) local =
    let rest = fill_local buffers pairs (set local port buffer) in
    if ltb buffer buffers
    then if ltb port (length local) then rest else throws undefined_access
    else throws undefined_access

-- `createLocalBuffer`: the positions that the pointers of a component stand for.
unfoldable pub create_local_buffer : ℕ → List (ℕ × ℕ) → Result (List ℕ)
unfolding fill_local
create_local_buffer buffers pairs = fill_local buffers pairs (replicate (length pairs) 0)

unfoldable pub create_component_buffer : ℕ → BufferConfig → Result ComponentBuffer
unfolding create_local_buffer
create_component_buffer buffers config =
    create_local_buffer buffers config.buffer_to_port_input >>= λ inputs.
    create_local_buffer buffers config.buffer_to_port_output >>= λ outputs. ok (record {
      input_valid = inputs;
      input_timestamp = inputs;
      input_groups = config.port_group_config_input;
      output_valid = outputs;
      output_timestamp = outputs;
      output_groups = config.port_group_config_output;
    })

-- `port_group_config_input[port_group.group_index] = ...` for each group of the pattern.
unfoldable pub group_configs :
    PortType
    → ℤ
    → PatternInstance
    → List PortGroup
    → List PortGroupConfig
    → Result (List PortGroupConfig)
group_configs type td c [] configs = ok configs
group_configs type td c (g ∷ gs) configs = get_port_group_offset g.group_index type td c >>= λ r.
    group_configs type td c gs (
      set configs g.group_index (record { group_offset = r.0; group_port_count = r.1; size = r.2 }))

abbrev pub no_config : PortGroupConfig
no_config = record { group_offset = pos 0; group_port_count = 0; size = 0 }

unfoldable pub pattern_group_configs :
    PortType → ℤ → PatternInstance → Result (List PortGroupConfig)
unfolding group_configs
pattern_group_configs type td c =
    let groups = c.local_pattern.port_groups in
    group_configs type td c groups (replicate (length groups) no_config)

-- The component buffers that the constructor of `TimeStepBuffer` makes.
unfoldable pub create_component_buffers : ℕ → List BufferConfig → Result (List ComponentBuffer)
unfolding create_component_buffer
create_component_buffers buffers [] = ok []
create_component_buffers buffers (config ∷ configs) =
    create_component_buffer buffers config >>= λ b.
    create_component_buffers buffers configs >>= λ rest. ok (b ∷ rest)

pub record TimeDomainBuffer : Type 0 where
  pub count_async_sources : ℕ
  pub count_internal_sync_sources : ℕ
  pub data_names : List String
  pub port_to_buffer_index : Indices
  pub buffer_config_list : List BufferConfig
  pub component_buffers : List ComponentBuffer

-- The components in the order of their buffers.
unfoldable pub ordered_components : ℤ → List GraphComponent → Result (List Typed)
unfolding with_types sort_typed
ordered_components td patterns = get_patterns_for_time_domain td patterns >>= λ components.
    with_types td components >>= λ typed. ok (sort_typed typed)

module _ (format : String → ℕ → String → String) (graph : GraphInstance) (td : ℤ) where
  unfoldable pub store_inputs : ℕ → List Place → Indices → Indices
  store_inputs index [] m = m
  store_inputs index ((d, h) ∷ places) m =
      store_inputs index places (store_index (port_id format d h) index m)

  -- The loop over the output ports of a component.
  unfoldable pub gather_ports : PatternInstance → List Found → Gathered → Result Gathered
  unfolding store_inputs
  gather_ports c [] s = ok s
  gather_ports c (f ∷ fs) s =
      let index = length s.buffer_datatype in
      let m = store_index (port_id format c f) index s.port_to_buffer_index in
      connected_to_ptr format (port_id format c f) graph >>= λ places. gather_ports c fs (record {
        buffer_datatype = s.buffer_datatype ++ f.1.port.datatype ∷ [];
        port_to_buffer_index = store_inputs index places m;
      })

  unfoldable pub gather : List Typed → Gathered → Result Gathered
  unfolding gather_ports
  gather [] s = ok s
  gather ((type, c) ∷ cs) s =
      get_producer_ports td c >>= λ ports. gather_ports c ports s >>= λ next. gather cs next

  -- `buffer_to_port_output` and `buffer_to_port_input`.
  unfoldable pub buffer_to_port : Indices → PatternInstance → List Found → Result (List (ℕ × ℕ))
  buffer_to_port m c [] = ok []
  buffer_to_port m c ((g, p) ∷ fs) = get_port_index c g p >>= λ index.
      buffer_to_port m c fs >>= λ rest.
      ok ((index_or_zero (m (port_id format c (g, p))), index) ∷ rest)

  unfoldable pub buffer_config : Indices → Typed → Result BufferConfig
  unfolding buffer_to_port pattern_group_configs
  buffer_config m (type, c) = get_producer_ports td c >>= λ outputs.
      buffer_to_port m c outputs >>= λ output. get_consumer_ports td c >>= λ inputs.
      buffer_to_port m c inputs >>= λ input.
      pattern_group_configs PortType.consumer td c >>= λ input_groups.
      pattern_group_configs PortType.producer td c >>= λ output_groups. ok (record {
        component_type = type;
        instance_id = c.instance_id;
        buffer_to_port_input = input;
        port_group_config_input = input_groups;
        buffer_to_port_output = output;
        port_group_config_output = output_groups;
      })

  unfoldable pub buffer_configs : Indices → List Typed → Result (List BufferConfig)
  unfolding buffer_config
  buffer_configs m [] = ok []
  buffer_configs m (c ∷ cs) =
      buffer_config m c >>= λ config. buffer_configs m cs >>= λ rest. ok (config ∷ rest)

  -- `init`. The time steps have the same component buffers.
  unfoldable pub init : (String → Bool) → List GraphComponent → Result TimeDomainBuffer
  unfolding ordered_components gather buffer_configs create_component_buffers create_objects
      count_types
  init known patterns = ordered_components td patterns >>= λ ordered.
      gather ordered (record { buffer_datatype = []; port_to_buffer_index = λ id. none }) >>= λ s.
      let names = create_objects known s.buffer_datatype in
      buffer_configs s.port_to_buffer_index ordered >>= λ configs.
      create_component_buffers (length names) configs >>= λ buffers. ok (record {
        count_async_sources = count_types ComponentType.async_source ordered;
        count_internal_sync_sources = count_types ComponentType.internal_sync_source ordered;
        data_names = names;
        port_to_buffer_index = s.port_to_buffer_index;
        buffer_config_list = configs;
        component_buffers = buffers;
      })

-- `cancelAllSources` and `cancelAll`, over the first `k` sources and time steps.
unfoldable pub cancel_all_sources : ℕ → TimeStepBuffer → TimeStepBuffer
cancel_all_sources zero b = b
cancel_all_sources (suc k) b = cancel_source k (cancel_all_sources k b)

unfoldable pub cancel_all : ℕ → ℕ → (ℕ → TimeStepBuffer) → ℕ → TimeStepBuffer
unfolding cancel_all_sources
cancel_all zero sources b = b
cancel_all (suc k) sources b =
    let rest = cancel_all k sources b in update rest k (cancel_all_sources sources (rest k))
