-- ===== src/Pattern/Graph/Invariant.antt =====
-- Well-formed graphs of src/traact/pattern/instance/GraphInstance.cpp, and what `connectedToPtr` gives
-- for an output port of one.
use mathlib.Core.List.{Memᴰ}
use traact_core.Prelude.{
  ℕ, ◌≡◌, ◌≢◌, ◌↔◌, ◌⊎◌, refl, sym, ap, ◌∙◌, List, ◌∷◌, true, some, String, eqb_iff, arith, subst,
  get_elem?,
}
use traact_core.Prelude.Int.{pos}
use traact_core.Prelude.Maps.{find_key-Distinct, Distinct}
use traact_core.Exceptions.{ok, ◌>>=◌}
use traact_core.Pattern.Port.{PortType}
use traact_core.Pattern.Instance.{
  PortId, PortInstance, PortGroupInstance, PatternInstance, Found, get_port_list, port_name,
  port_id, get_port_of, get_producer_port, get_port, default_instance, unchecked, at_index,
}
use traact_core.Pattern.Graph.{
  GraphInstance, Place, follows, connected_places, connected_to_ptr, at_pattern, eqb_id,
}
use traact_core.Pattern.Graph.Search.{
  producers, consumers, IsPort, vector_get_for_name-none, find_in_groups-found,
}
use traact_core.Pattern.Graph.Walk.{walk_patterns-walked}

pub eqb_id_iff : (a b : PortId) → (eqb_id a b ≡ true) ↔ (a ≡ b)
eqb_id_iff (a, b) (c, d) = ground (arith, eqb_iff a c, eqb_iff b d)

module _ (format : String → ℕ → String → String) where
  -- A pattern instance has its default group, output ports among its outputs, and no output port that
  -- is called like the full name of one.
  pub record IsInstance (c : PatternInstance) : Type 0 where
    pub first : PortGroupInstance
    pub others : List PortGroupInstance
    pub rest : List (List PortGroupInstance)
    pub has_default : c.port_groups ≡ (first ∷ others) ∷ rest
    pub typed :
        (g : PortGroupInstance) (p : PortInstance)
        → IsPort producers c.port_groups g p
        → p.port.port_type ≡ PortType.producer
    pub plain :
        (g h : PortGroupInstance) (p q : PortInstance)
        → IsPort producers c.port_groups g p
        → IsPort producers c.port_groups h q
        → p.port.name ≢ port_name format h q

  -- Every pattern stands under its own id, and no input port is connected to an unknown pattern.
  pub record IsGraph (graph : GraphInstance) : Type 0 where
    pub named :
        (key : String) (c : PatternInstance)
        → Memᴰ (key, c) graph.pattern_instances
        → c.instance_id ≡ key
    pub distinct : Distinct graph.pattern_instances
    pub instances :
        (key : String) (c : PatternInstance) → Memᴰ (key, c) graph.pattern_instances → IsInstance c
    pub known :
        (key : String) (d : PatternInstance) (h : PortGroupInstance) (q : PortInstance)
        → Memᴰ (key, d) graph.pattern_instances
        → IsPort consumers d.port_groups h q
        → (q.connected_to ≡ ("", ""))
          ⊎ (c : PatternInstance) × Memᴰ (q.connected_to.0, c) graph.pattern_instances

  -- An input port of `d` is connected to an output port of `c`.
  pub record Leads (c d : PatternInstance) : Type 0 where
    pub output_group : PortGroupInstance
    pub output : PortInstance
    pub input_group : PortGroupInstance
    pub input : PortInstance
    pub is_output : IsPort producers c.port_groups output_group output
    pub is_input : IsPort consumers d.port_groups input_group input
    pub connected : input.connected_to ≡ port_id format c (output_group, output)

  default_instance-first :
      (c : PatternInstance) (v : IsInstance c) → default_instance c ≡ ok v.first
  unfolding default_instance
  default_instance-first c v =
      ap (λ groups. at_index groups (pos 0) >>= λ list. unchecked (get_elem? list 0)) v.has_default

  get_producer_port-name :
      (c : PatternInstance) (g : PortGroupInstance) (p : PortInstance)
      → IsInstance c
      → IsPort producers c.port_groups g p
      → (h : PortGroupInstance) × (q : PortInstance) × (get_producer_port format
            (port_name format g p)
            c
          ≡ ok (some (h, q)))
        × IsPort producers c.port_groups h q
        × (port_name format h q ≡ port_name format g p)
  unfolding get_producer_port get_port_of
  get_producer_port-name c g p v at =
      let name = port_name format g p in
      let (h, q, found, q_at, named) =
        find_in_groups-found format producers c.port_groups name g p at refl in
      let in_default : (x : PortInstance) → Memᴰ x v.first.producer_ports → x.port.name ≢ name =
        λ x m.
          v.plain v.first g x p
            (record {
              group = v.first ∷ v.others;
              in_groups = subst (Memᴰ (v.first ∷ v.others)) (sym v.has_default) (Memᴰ.head refl);
              in_group = Memᴰ.head refl;
              in_ports = m;
            })
            at in
      let miss =
        vector_get_for_name-none (λ (x : PortInstance). x.port.name) v.first.producer_ports name
          in_default in
      let default : default_instance c ≡ ok v.first = default_instance-first c v in
      (h, q, rw (default, miss, found) refl, q_at, named)

  get_port-name :
      (c : PatternInstance) (g : PortGroupInstance) (p : PortInstance)
      → IsInstance c
      → IsPort producers c.port_groups g p
      → (h : PortGroupInstance) × (q : PortInstance) × (get_port format (port_name format g p) c
          ≡ ok (some (h, q)))
        × IsPort producers c.port_groups h q
        × (port_name format h q ≡ port_name format g p)
  unfolding get_port
  get_port-name c g p v at =
      let (h, q, e, q_at, named) = get_producer_port-name c g p v at in
      (h, q, rw (e, get_port) refl, q_at, named)

  follows_iff :
      (c d : PatternInstance) (f : Found) (h : PortGroupInstance) (q : PortInstance)
      → (follows format (c, f) (d, (h, q)) ≡ true) ↔ (q.connected_to ≡ port_id format c f)
  unfolding follows
  follows_iff c d f h q = eqb_id_iff q.connected_to (port_id format c f)

  id_of_name :
      (c : PatternInstance) (g h : PortGroupInstance) (p q : PortInstance)
      → port_name format h q ≡ port_name format g p
      → port_id format c (h, q) ≡ port_id format c (g, p)
  unfolding port_id
  id_of_name c g h p q e = ap (λ n. (c.instance_id, n)) e

  pub at_pattern-named :
      (graph : GraphInstance) (key : String) (c : PatternInstance)
      → IsGraph graph
      → Memᴰ (key, c) graph.pattern_instances
      → at_pattern c.instance_id graph ≡ ok c
  unfolding at_pattern
  at_pattern-named graph key c v m =
      ap (λ k. at_pattern k graph) (v.named key c m)
      ∙ rw (find_key-Distinct key c graph.pattern_instances v.distinct m, at_pattern) refl

  -- `connectedToPtr` of an output port gives exactly the input ports that are connected to it.
  pub outputs_connected :
      (graph : GraphInstance) (key : String) (c : PatternInstance) (g : PortGroupInstance)
      (p : PortInstance)
      → IsGraph graph
      → Memᴰ (key, c) graph.pattern_instances
      → IsPort producers c.port_groups g p
      → (places : List Place) × (connected_to_ptr format (port_id format c (g, p)) graph
          ≡ ok places)
        × ((j : String) (d : PatternInstance) (h : PortGroupInstance) (q : PortInstance)
            → Memᴰ (j, d) graph.pattern_instances
            → IsPort consumers d.port_groups h q
            → q.connected_to ≡ port_id format c (g, p)
            → Memᴰ (d, (h, q)) places)
        × ((place : Place)
            → Memᴰ place places
            → (j : String) × Memᴰ (j, place.0) graph.pattern_instances
              × IsPort consumers place.0.port_groups place.1.0 place.1.1
              × (place.1.1.connected_to ≡ port_id format c (g, p)))
  unfolding connected_to_ptr connected_places port_id get_port_list
  outputs_connected graph key c g p v at port =
      let instance_of = v.instances key c at in
      let (h, q, found, q_at, named) = get_port-name c g p instance_of port in
      let same = id_of_name c g h p q named in
      let (places, walked, all, only) =
        walk_patterns-walked (follows format (c, (h, q))) PortType.consumer consumers (λ x. refl)
          graph.pattern_instances in
      let id_key = v.named key c at in
      let here : at_pattern c.instance_id graph ≡ ok c = at_pattern-named graph key c v at in
      (
        places,
        rw (here, found, instance_of.typed h q q_at, connected_places) walked,
        λ j d k r m x e. all j d k r m x ((follows_iff c d (h, q) k r).1 (e ∙ sym same)),
        λ place m.
            let (j, listed, x, k) = only place m in
            (j, listed, x, (follows_iff c place.0 (h, q) place.1.0 place.1.1).0 k ∙ same),
      )
