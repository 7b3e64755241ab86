-- ===== src/Pattern/Graph/Connect.antt =====
-- `checkSourceAndSinkConnectionError`, `connect`, `disconnect` and `checkRunnable` of
-- src/traact/pattern/instance/GraphInstance.cpp.
use mathlib.Core.Option
use traact_core.Prelude.{ℕ, List, [], ◌∷◌, ◌++◌, Option, none, some, String, eqb, if◌then◌else◌}
use traact_core.Prelude.Int.{eqb_ℤ}
use traact_core.Prelude.Maps.{find_key, store_key}
use traact_core.Exceptions.{Result, ok, throws, invalid_argument, logic_error, ◌>>=◌}
use traact_core.Pattern.Instance.{
  PortId, PortInstance, PortGroupInstance, PatternInstance, Found, port_id, port_name,
  get_producer_port, get_consumer_port, get_time_domain, unchecked,
}
use traact_core.Pattern.Graph.{GraphInstance, would_connect_to_self, at_pattern, is_connected}

-- The error texts, by what they say.
pub data ConnectionError : Type 0 where
  to_itself unknown_source unknown_source_port unknown_sink unknown_sink_port : ConnectionError
  different_time_domains incompatible_datatype creates_loop : ConnectionError

-- A pointer of a `find_if` or a getter, with the error where it is null.
abbrev pub or_error {ℓ} :
    {A : Type ℓ}
    → ConnectionError
    → Option A
    → (A → Result (Option ConnectionError))
    → Result (Option ConnectionError)
or_error e none continue = ok (some e)
or_error e (some a) continue = continue a

-- The write `connected_to = id` to the port of a list whose name is `name`, if there is one.
module _ (get_name : PortInstance → String) (name : String) (id : PortId) where
  unfoldable pub write_port : List PortInstance → Option (List PortInstance)
  write_port [] = none
  write_port (p ∷ ps) =
      let rest = Option.map (λ qs. p ∷ qs) (write_port ps) in
      if eqb (get_name p) name then some (record p { connected_to = id } ∷ ps) else rest

module _ (format : String → ℕ → String → String) where
  -- The same write in the instances of a group, and in all groups, as `getConsumerPort` finds the port.
  unfoldable pub write_instances :
      String → PortId → List PortGroupInstance → Option (List PortGroupInstance)
  unfolding write_port
  write_instances name id [] = none
  write_instances name id (g ∷ gs) =
      let rest = Option.map (λ hs. g ∷ hs) (write_instances name id gs) in
      elim (write_port (port_name format g) name id g.consumer_ports) [
        | none ↦ rest
        | some ports ↦ some (record g { consumer_ports = ports } ∷ gs)
      ]

  unfoldable pub write_groups :
      String → PortId → List (List PortGroupInstance) → Option (List (List PortGroupInstance))
  unfolding write_instances
  write_groups name id [] = none
  write_groups name id (gs ∷ gss) =
      let rest = Option.map (λ hss. gs ∷ hss) (write_groups name id gss) in
      elim (write_instances name id gs) [ none ↦ rest | some hs ↦ some (hs ∷ gss) ]

  -- The write to the port of the default group with that very name, which is tried first.
  unfoldable pub write_default :
      String → PortId → List (List PortGroupInstance) → Option (List (List PortGroupInstance))
  unfolding write_port
  write_default name id ((g ∷ gs) ∷ gss) =
      Option.map (λ ports. (record g { consumer_ports = ports } ∷ gs) ∷ gss)
        (write_port (λ p. p.port.name) name id g.consumer_ports)
  write_default name id gss = none

  -- `getConsumerPort(name)->connected_to = id`.
  unfoldable pub write_connected_to : String → PortId → PatternInstance → Result PatternInstance
  unfolding write_default write_groups
  write_connected_to name id c = elim (write_default name id c.port_groups) [
    | some groups ↦ ok (record c { port_groups = groups })
    | none ↦ unchecked (write_groups name id c.port_groups) >>= λ groups.
        ok (record c { port_groups = groups })
  ]

  -- What is checked once both ports are found.
  unfoldable pub check_ports :
      ℕ
      → PatternInstance
      → Found
      → PatternInstance
      → Found
      → GraphInstance
      → Result (Option ConnectionError)
  check_ports fuel prod (_, p) cons (_, q) graph = get_time_domain prod p >>= λ d.
      get_time_domain cons q >>= λ e.
      if eqb_ℤ d e
      then if eqb p.port.datatype q.port.datatype
        then (would_connect_to_self format fuel graph prod.instance_id cons >>= λ b.
            ok (if b then some creates_loop else none))
        else ok (some incompatible_datatype)
      else ok (some different_time_domains)

  unfoldable pub check_source_and_sink :
      ℕ → String → String → String → String → GraphInstance → Result (Option ConnectionError)
  unfolding check_ports
  check_source_and_sink fuel source producer_port sink consumer_port graph =
      if eqb source sink
      then ok (some to_itself)
      else or_error unknown_source (find_key source graph.pattern_instances) λ prod.
        get_producer_port format producer_port prod >>= λ prod_port.
        or_error unknown_source_port prod_port λ p.
          or_error unknown_sink (find_key sink graph.pattern_instances) λ cons.
            get_consumer_port format consumer_port cons >>= λ cons_port.
            or_error unknown_sink_port cons_port λ q. check_ports fuel prod p cons q graph

  -- The two last statements of `connect`, once nothing was wrong.
  unfoldable pub set_connection :
      String → String → String → String → GraphInstance → Result GraphInstance
  unfolding write_connected_to
  set_connection source producer_port sink consumer_port graph = at_pattern source graph >>= λ prod.
      get_producer_port format producer_port prod >>= λ port. unchecked port >>= λ f.
      at_pattern sink graph >>= λ cons.
      write_connected_to consumer_port (port_id format prod f) cons >>= λ written.
      ok (record graph { pattern_instances = store_key sink written graph.pattern_instances })

  unfoldable pub connect :
      ℕ → String → String → String → String → GraphInstance → Result GraphInstance
  unfolding check_source_and_sink set_connection
  connect fuel source producer_port sink consumer_port graph =
      check_source_and_sink fuel source producer_port sink consumer_port graph >>= λ check.
      elim check [
        | some error ↦ throws invalid_argument
        | none ↦ set_connection source producer_port sink consumer_port graph
      ]

  unfoldable pub disconnect : String → String → GraphInstance → Result GraphInstance
  disconnect sink consumer_port graph = throws logic_error

  -- The loops of `checkRunnable`, with the lines of the error text so far: the port that each names.
  unfoldable pub unconnected_ports :
      PatternInstance → PortGroupInstance → GraphInstance → List PortInstance → Result (List PortId)
  unconnected_ports c g graph [] = ok []
  unconnected_ports c g graph (p ∷ ps) = is_connected format c (g, p) graph >>= λ connected.
      unconnected_ports c g graph ps >>= λ rest.
      ok (if connected then rest else port_id format c (g, p) ∷ rest)

  unfoldable pub unconnected_instances :
      PatternInstance → GraphInstance → List PortGroupInstance → Result (List PortId)
  unfolding unconnected_ports
  unconnected_instances c graph [] = ok []
  unconnected_instances c graph (g ∷ gs) = unconnected_ports c g graph g.consumer_ports >>= λ ids.
      unconnected_instances c graph gs >>= λ rest. ok (ids ++ rest)

  unfoldable pub unconnected_groups :
      PatternInstance → GraphInstance → List (List PortGroupInstance) → Result (List PortId)
  unfolding unconnected_instances
  unconnected_groups c graph [] = ok []
  unconnected_groups c graph (gs ∷ gss) = unconnected_instances c graph gs >>= λ ids.
      unconnected_groups c graph gss >>= λ rest. ok (ids ++ rest)

  unfoldable pub unconnected :
      GraphInstance → List (String × PatternInstance) → Result (List PortId)
  unfolding unconnected_groups
  unconnected graph [] = ok []
  unconnected graph ((_, c) ∷ m) = unconnected_groups c graph c.port_groups >>= λ ids.
      unconnected graph m >>= λ rest. ok (ids ++ rest)

  -- `checkRunnable`: nothing if the error text is empty.
  unfoldable pub check_runnable : GraphInstance → Result (Option (List PortId))
  unfolding unconnected
  check_runnable graph = unconnected graph graph.pattern_instances >>= λ ids.
      ok (elim ids [ [] ↦ none | x ∷ rest ↦ some (x ∷ rest) ])
