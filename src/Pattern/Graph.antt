-- ===== src/Pattern/Graph.antt =====
-- src/traact/pattern/instance/GraphInstance.cpp: the patterns of a dataflow graph and how their ports
-- are connected.
pub mod Connect
pub mod Search
pub mod Walk
pub mod Invariant
pub mod Acyclic
pub mod Rewritten
pub mod Written
pub mod Connection
pub mod Connected
pub mod Fresh
pub mod Built
pub mod Returns
pub mod Demo
mod Examples
use traact_core.Prelude.{
  ℕ, zero, suc, List, [], ◌∷◌, ◌++◌, Bool, true, false, Option, none, some, String, eqb,
  if◌then◌else◌, ◌&&◌, length, replicate,
}
use traact_core.Prelude.Int.{ℤ, negsuc, eqb_ℤ}
use traact_core.Prelude.Maps.{find_key, emplace}
use traact_core.Exceptions.{
  Result, ok, throws, out_of_fuel, invalid_argument, out_of_range, undefined_access, logic_error,
  ◌>>=◌,
}
use traact_core.Pattern.Port.{PortType}
use traact_core.Pattern.Build.{Pattern}
use traact_core.Pattern.Instance.{
  PortId, PortInstance, PortGroupInstance, PatternInstance, Found, new_pattern_instance,
  get_port_list, port_id, get_port, get_producer_port, get_consumer_port, get_time_domain,
}

pub record GraphInstance : Type 0 where
  pub name : String
  pub pattern_instances : List (String × PatternInstance)

unfoldable pub new_graph : String → GraphInstance
new_graph name = record { name = name; pattern_instances = [] }

-- `local_to_global_time_domain`: as many entries as the pattern has concurrencies, the first written
-- without a check.
unfoldable pub time_domains : ℕ → ℤ → Result (List ℤ)
time_domains zero time_domain = throws undefined_access
time_domains (suc n) time_domain = ok (time_domain ∷ replicate n (negsuc 0))

unfoldable pub add_pattern : String → Pattern → ℤ → GraphInstance → Result GraphInstance
unfolding time_domains
add_pattern id pattern time_domain g = elim (find_key id g.pattern_instances) [
  | some _ ↦ throws invalid_argument
  | none ↦ new_pattern_instance id pattern >>= λ c.
      time_domains (length pattern.concurrency) time_domain >>= λ domains. ok (record g {
        pattern_instances =
            emplace id (record c { local_to_global_time_domain = domains }) g.pattern_instances;
      })
]

-- A loop that returns true at the first element for which `test` does.
unfoldable pub any_of {ℓ} : {A : Type ℓ} → (A → Result Bool) → List A → Result Bool
any_of test [] = ok false
any_of test (x ∷ xs) =
    let rest = any_of test xs in test x >>= λ b. elim b [ true ↦ ok true | false ↦ rest ]

-- `pattern_instances.at(id)`.
unfoldable pub at_pattern : String → GraphInstance → Result PatternInstance
at_pattern id g = elim (find_key id g.pattern_instances) [
  | none ↦ throws out_of_range
  | some c ↦ ok c
]

abbrev pub eqb_id : PortId → PortId → Bool
eqb_id (a, b) (c, d) = eqb a c && eqb b d

-- A port with its group and its pattern.
abbrev pub Place : Type 0
Place = PatternInstance × Found

-- The search of `connectedToPtr` over the ports of one list, of a group's instances, of all groups of
-- a pattern and of all patterns. A set of pointers is the list of the ports, in the order of the walk.
module _ (keeps : Place → Bool) (type : PortType) where
  unfoldable pub walk_ports : PatternInstance → PortGroupInstance → List PortInstance → List Place
  walk_ports c g [] = []
  walk_ports c g (p ∷ ps) =
      let rest = walk_ports c g ps in if keeps (c, (g, p)) then (c, (g, p)) ∷ rest else rest

  unfoldable pub walk_instances : PatternInstance → List PortGroupInstance → Result (List Place)
  unfolding walk_ports
  walk_instances c [] = ok []
  walk_instances c (g ∷ gs) = get_port_list type g >>= λ ports.
      walk_instances c gs >>= λ rest. ok (walk_ports c g ports ++ rest)

  unfoldable pub walk_groups : PatternInstance → List (List PortGroupInstance) → Result (List Place)
  unfolding walk_instances
  walk_groups c [] = ok []
  walk_groups c (gs ∷ gss) =
      walk_instances c gs >>= λ places. walk_groups c gss >>= λ rest. ok (places ++ rest)

  unfoldable pub walk_patterns : List (String × PatternInstance) → Result (List Place)
  unfolding walk_groups
  walk_patterns [] = ok []
  walk_patterns ((_, c) ∷ m) =
      walk_groups c c.port_groups >>= λ places. walk_patterns m >>= λ rest. ok (places ++ rest)

module _ (format : String → ℕ → String → String) where
  -- The tests of `connectedToPtr`, for the port `(c, f)`.
  unfoldable pub follows : Place → Place → Bool
  follows (c, f) (_, (_, q)) = eqb_id q.connected_to (port_id format c f)

  unfoldable pub leads : Place → Place → Bool
  leads (c, (g, p)) (d, h) = eqb_id (port_id format d h) p.connected_to

  unfoldable pub connected_places : Place → GraphInstance → Result (List Place)
  unfolding follows leads
  connected_places (c, (g, p)) graph = elim p.port.port_type [
    | PortType.producer ↦
        walk_patterns (follows (c, (g, p))) PortType.consumer graph.pattern_instances
    | _ ↦ walk_patterns (leads (c, (g, p))) PortType.producer graph.pattern_instances
  ]

  -- `connectedToPtr(id)`.
  unfoldable pub connected_to_ptr : PortId → GraphInstance → Result (List Place)
  unfolding connected_places at_pattern
  connected_to_ptr (id, name) graph = at_pattern id graph >>= λ c.
      get_port format name c >>= λ port. elim port [
        | none ↦ throws invalid_argument
        | some f ↦ connected_places (c, f) graph
      ]

  -- `isConnected` of a port.
  unfoldable pub is_connected : PatternInstance → Found → GraphInstance → Result Bool
  unfolding connected_to_ptr
  is_connected c f graph = connected_to_ptr (port_id format c f) graph >>= λ places.
      ok (elim places [ [] ↦ false | _ ∷ _ ↦ true ])

  -- What `would_connect_to_self_recursive` does for one port of `c`; `again` is the recursive call. A
  -- port that is not connected has no place, so that its `continue` needs no test of its own.
  unfoldable pub leads_back :
      GraphInstance → (PatternInstance → Result Bool) → PatternInstance → Found → Result Bool
  unfolding any_of
  leads_back graph again c f = connected_to_ptr (port_id format c f) graph >>= λ places.
      any_of (λ (place : Place). again place.0) places

  -- The patterns are compared by the address of the instance, which is its id. The code has no bound:
  -- `fuel` bounds the depth of the recursion.
  unfoldable pub would_connect_to_self : ℕ → GraphInstance → String → PatternInstance → Result Bool
  unfolding any_of leads_back
  would_connect_to_self zero graph prod test = out_of_fuel
  would_connect_to_self (suc fuel) graph prod test =
      let rest =
        any_of
          (any_of λ (g : PortGroupInstance).
            any_of
              (λ (p : PortInstance).
                leads_back graph (λ next. would_connect_to_self fuel graph prod next) test (g, p))
              g.producer_ports)
          test.port_groups in
      if eqb test.instance_id prod then ok true else rest
