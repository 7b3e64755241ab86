-- ===== src/Pattern/Instance.antt =====
-- src/traact/pattern/instance/PortInstance.cpp and PatternInstance.cpp: a pattern with instances of
-- its port groups. The back pointers of a port, to its group and its pattern, are arguments; a
-- pointer to a port is the port with its group. `format` is `fmt::format("{0}_{1}_{2}", ...)`.
pub mod Picked
pub mod Index
mod Examples
use traact_core.Prelude.{
  ℕ, zero, suc, ◌+◌, ◌==◌, List, [], ◌∷◌, ◌++◌, map, Bool, true, false, ◌&&◌, ◌||◌, Option, none,
  some, String, eqb, if◌then◌else◌, length, get_elem?, set, replicate,
}
use traact_core.Prelude.Int.{ℤ, pos, negsuc, eqb_ℤ}
use traact_core.Prelude.Maps.{find_key, emplace}
use traact_core.Exceptions.{
  Result, ok, throws, invalid_argument, out_of_range, undefined_access, ◌>>=◌,
}
use traact_core.Pattern.Port.{Port, PortGroup, PortType, vector_get_for_name}
use traact_core.Pattern.Build.{ComponentType, Pattern}
use traact_core.Datatypes.{Concurrency}

-- `ComponentID_PortName`.
abbrev pub PortId : Type 0
PortId = String × String

pub record PortInstance : Type 0 where
  pub port : Port
  pub connected_to : PortId

pub record PortGroupInstance : Type 0 where
  pub port_group : PortGroup
  pub port_group_instance_index : ℕ
  pub producer_ports : List PortInstance
  pub consumer_ports : List PortInstance

pub record PatternInstance : Type 0 where
  pub instance_id : String
  pub display_name : String
  pub local_pattern : Pattern
  pub port_groups : List (List PortGroupInstance)
  pub port_group_name_to_index : List (String × ℕ)
  pub local_to_global_time_domain : List ℤ

abbrev pub Found : Type 0
Found = PortGroupInstance × PortInstance

abbrev pub new_port : Port → PortInstance
new_port p = record { port = p; connected_to = ("", "") }

-- The constructor of a `PortGroupInstance`.
unfoldable pub new_group_instance : PortGroup → ℕ → PortGroupInstance
new_group_instance group index = record {
  port_group = group;
  port_group_instance_index = index;
  producer_ports = map new_port group.producer_ports;
  consumer_ports = map new_port group.consumer_ports;
}

-- `port_group_name_to_index.emplace`, for each group of the pattern.
unfoldable pub name_to_index : List PortGroup → List (String × ℕ) → List (String × ℕ)
name_to_index [] m = m
name_to_index (g ∷ gs) m = name_to_index gs (emplace g.name g.group_index m)

-- The constructor of a `PatternInstance`, with the first group, `port_groups.at(0)`.
unfoldable pub new_pattern_instance : String → Pattern → Result PatternInstance
unfolding new_group_instance name_to_index
new_pattern_instance id pattern = elim pattern.port_groups [
  | [] ↦ throws out_of_range
  | g ∷ gs ↦ ok (record {
    instance_id = id;
    display_name = id;
    local_pattern = pattern;
    port_groups = (new_group_instance g 0 ∷ []) ∷ replicate (length gs) [];
    port_group_name_to_index = name_to_index (g ∷ gs) [];
    local_to_global_time_domain = [];
  })
]

-- An element by `at`, or by `[]`.
abbrev pub at_index {ℓ} : {A : Type ℓ} → List A → ℤ → Result A
at_index xs (negsuc i) = throws out_of_range
at_index xs (pos i) = elim (get_elem? xs i) [ none ↦ throws out_of_range | some x ↦ ok x ]

abbrev pub unchecked {ℓ} : {A : Type ℓ} → Option A → Result A
unchecked none = throws undefined_access
unchecked (some x) = ok x

-- `getTimeDomain` of a port.
unfoldable pub get_time_domain : PatternInstance → PortInstance → Result ℤ
get_time_domain c p = at_index c.local_to_global_time_domain p.port.time_domain

-- `getPortList`.
unfoldable pub get_port_list : PortType → PortGroupInstance → Result (List PortInstance)
get_port_list PortType.consumer g = ok g.consumer_ports
get_port_list PortType.producer g = ok g.producer_ports
get_port_list PortType.none_port g = throws invalid_argument

unfoldable pub count_instances : ℤ → List PortInstance → ℕ
count_instances td [] = 0
count_instances td (p ∷ ps) =
    let result = count_instances td ps in if eqb_ℤ p.port.time_domain td then result + 1 else result

-- `getPortCount` of an instance of a group.
unfoldable pub instance_port_count : ℤ → PortType → PortGroupInstance → Result ℕ
unfolding count_instances get_port_list
instance_port_count td type g = get_port_list type g >>= λ ports. ok (count_instances td ports)

-- The loops of `getPortGroupStartIndex`, with the `result` so far: `found` is its `return` inside the
-- loops.
pub data Scan : Type 0 where
  found going : ℕ → Scan

unfoldable pub scan_instances :
    ℤ → PortType → PortGroupInstance → String → List PortGroupInstance → ℕ → Result Scan
unfolding instance_port_count
scan_instances td type self group_name [] result = ok (going result)
scan_instances td type self group_name (g ∷ gs) result =
    if eqb group_name self.port_group.name
      && g.port_group_instance_index == self.port_group_instance_index
    then ok (found result)
    else instance_port_count td type g >>= λ n.
        scan_instances td type self group_name gs (result + n)

abbrev go_on : Scan → (ℕ → Result ℕ) → Result ℕ
go_on (found result) rest = ok result
go_on (going result) rest = rest result

-- `k` rounds, over the groups of the pattern and the instances of each.
unfoldable pub scan_groups :
    ℤ
    → PortType
    → PortGroupInstance
    → ℕ
    → List PortGroup
    → List (List PortGroupInstance)
    → ℕ
    → Result ℕ
unfolding scan_instances
scan_groups td type self zero groups lists result = ok result
scan_groups td type self (suc k) (g ∷ groups) (list ∷ lists) result =
    scan_instances td type self g.name list result >>= λ s.
    go_on s (λ r. scan_groups td type self k groups lists r)
scan_groups td type self (suc k) groups lists result = throws undefined_access

unfoldable pub get_port_group_start_index :
    ℤ → PortType → PatternInstance → PortGroupInstance → Result ℕ
unfolding scan_groups
get_port_group_start_index td type c self =
    scan_groups td type self (length c.port_group_name_to_index) c.local_pattern.port_groups
      c.port_groups 0

unfoldable pub get_port_index : PatternInstance → PortGroupInstance → PortInstance → Result ℕ
unfolding get_port_group_start_index
get_port_index c g p =
    get_port_group_start_index p.port.time_domain p.port.port_type c g >>= λ start_index.
    ok (start_index + p.port.port_index)

-- The loops of `getProducerPorts` and `getConsumerPorts`: the ports of a list that `select` gives.
unfoldable pub ports_in_list :
    ℤ → PatternInstance → PortGroupInstance → List PortInstance → Result (List Found)
unfolding get_time_domain
ports_in_list td c g [] = ok []
ports_in_list td c g (p ∷ ps) = get_time_domain c p >>= λ d.
    ports_in_list td c g ps >>= λ rest. ok (if eqb_ℤ d td then (g, p) ∷ rest else rest)

unfoldable pub ports_in_instances :
    (PortGroupInstance → List PortInstance)
    → ℤ
    → PatternInstance
    → List PortGroupInstance
    → Result (List Found)
unfolding ports_in_list
ports_in_instances select td c [] = ok []
ports_in_instances select td c (g ∷ gs) = ports_in_list td c g (select g) >>= λ ports.
    ports_in_instances select td c gs >>= λ rest. ok (ports ++ rest)

unfoldable pub ports_in_groups :
    (PortGroupInstance → List PortInstance)
    → ℤ
    → PatternInstance
    → List (List PortGroupInstance)
    → Result (List Found)
unfolding ports_in_instances
ports_in_groups select td c [] = ok []
ports_in_groups select td c (gs ∷ gss) = ports_in_instances select td c gs >>= λ ports.
    ports_in_groups select td c gss >>= λ rest. ok (ports ++ rest)

unfoldable pub get_producer_ports : ℤ → PatternInstance → Result (List Found)
unfolding ports_in_groups
get_producer_ports td c = ports_in_groups (λ g. g.producer_ports) td c c.port_groups

unfoldable pub get_consumer_ports : ℤ → PatternInstance → Result (List Found)
unfolding ports_in_groups
get_consumer_ports td c = ports_in_groups (λ g. g.consumer_ports) td c c.port_groups

-- `getPortGroupIndex`, `getPortGroupCount` and `getPortGroupInfo`.
unfoldable pub get_port_group_index : String → PatternInstance → Result ℕ
get_port_group_index name c = elim (find_key name c.port_group_name_to_index) [
  | none ↦ throws invalid_argument
  | some i ↦ ok i
]

unfoldable pub get_port_group_count : String → PatternInstance → Result ℕ
unfolding get_port_group_index
get_port_group_count name c =
    get_port_group_index name c >>= λ i. at_index c.port_groups (pos i) >>= λ list. ok (length list)

unfoldable pub get_port_group_info : String → PatternInstance → Result (ℕ × ℕ)
unfolding get_port_group_index get_port_group_count
get_port_group_info name c =
    get_port_group_index name c >>= λ i. get_port_group_count name c >>= λ n. ok (i, n)

unfoldable pub instantiate_port_group : String → PatternInstance → Result PatternInstance
unfolding new_group_instance get_port_group_index
instantiate_port_group name c =
    elim (vector_get_for_name (λ (g : PortGroup). g.name) c.local_pattern.port_groups name) [
      | none ↦ throws invalid_argument
      | some blue_print ↦ get_port_group_index name c >>= λ i.
          unchecked (get_elem? c.port_groups i) >>= λ list. ok (record c {
            port_groups =
                set c.port_groups i (list ++ new_group_instance blue_print (length list) ∷ []);
          })
    ]

-- `getPortGroupOffset`: the offset, the number of ports and the number of instances of a group.
unfoldable pub get_port_group_offset : ℕ → PortType → ℤ → PatternInstance → Result (ℤ × ℕ × ℕ)
unfolding get_port_group_start_index instance_port_count
get_port_group_offset index type td c = unchecked (get_elem? c.port_groups index) >>= λ list.
    elim list [
      | [] ↦ ok (negsuc 0, 0, 0)
      | g ∷ gs ↦ get_port_group_start_index td type c g >>= λ offset.
          instance_port_count td type g >>= λ n. ok (pos offset, n, suc (length gs))
    ]

unfoldable pub contains_domain : ℤ → List ℤ → Bool
contains_domain td [] = false
contains_domain td (d ∷ ds) = let rest = contains_domain td ds in if eqb_ℤ d td then true else rest

unfoldable pub is_in_time_domain : ℤ → PatternInstance → Bool
unfolding contains_domain
is_in_time_domain td c = contains_domain td c.local_to_global_time_domain

-- `port_groups.at(kDefaultPortGroupIndex)[0]`.
unfoldable pub default_instance : PatternInstance → Result PortGroupInstance
default_instance c = at_index c.port_groups (pos 0) >>= λ list. unchecked (get_elem? list 0)

-- `getComponentType` and `getConcurrency`.
unfoldable pub get_component_type : ℤ → PatternInstance → Result ComponentType
get_component_type td c = at_index c.local_pattern.time_domain_component_type td

unfoldable pub get_concurrency : ℤ → PatternInstance → Result Concurrency
get_concurrency td c = at_index c.local_pattern.concurrency td

module _ (format : String → ℕ → String → String) where
  -- `getName` and `getId` of a port.
  unfoldable pub port_name : PortGroupInstance → PortInstance → String
  port_name g p = format g.port_group.name g.port_group_instance_index p.port.name

  unfoldable pub port_id : PatternInstance → Found → PortId
  unfolding port_name
  port_id c (g, p) = (c.instance_id, port_name g p)

  -- The loops of `getProducerPort` and `getConsumerPort`.
  unfoldable pub find_in_instances :
      (PortGroupInstance → List PortInstance) → String → List PortGroupInstance → Option Found
  unfolding port_name
  find_in_instances select name [] = none
  find_in_instances select name (g ∷ gs) =
      let rest = find_in_instances select name gs in
      elim (vector_get_for_name (port_name g) (select g) name) [
        | none ↦ rest
        | some p ↦ some (g, p)
      ]

  unfoldable pub find_in_groups :
      (PortGroupInstance → List PortInstance)
      → String
      → List (List PortGroupInstance)
      → Option Found
  unfolding find_in_instances
  find_in_groups select name [] = none
  find_in_groups select name (gs ∷ gss) =
      let rest = find_in_groups select name gss in
      elim (find_in_instances select name gs) [ none ↦ rest | some f ↦ some f ]

  unfoldable pub get_port_of :
      (PortGroupInstance → List PortInstance) → String → PatternInstance → Result (Option Found)
  unfolding find_in_groups default_instance
  get_port_of select name c = default_instance c >>= λ g.
      ok (elim (vector_get_for_name (λ (p : PortInstance). p.port.name) (select g) name) [
        | some p ↦ some (g, p)
        | none ↦ find_in_groups select name c.port_groups
      ])

  unfoldable pub get_producer_port : String → PatternInstance → Result (Option Found)
  unfolding get_port_of
  get_producer_port = get_port_of (λ g. g.producer_ports)

  unfoldable pub get_consumer_port : String → PatternInstance → Result (Option Found)
  unfolding get_port_of
  get_consumer_port = get_port_of (λ g. g.consumer_ports)

  unfoldable pub get_port : String → PatternInstance → Result (Option Found)
  unfolding get_producer_port get_consumer_port
  get_port name c = get_producer_port name c >>= λ result. elim result [
    | none ↦ get_consumer_port name c
    | some f ↦ ok (some f)
  ]
