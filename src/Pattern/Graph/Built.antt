-- ===== src/Pattern/Graph/Built.antt =====
-- Every graph that calls of `addPattern` and `connect` of src/traact/pattern/instance/GraphInstance.cpp
-- build.
use mathlib.Core.List.{Memᴰ}
use mathlib.Core.List.Memᴰ
use traact_core.Prelude.{
  ℕ, ◌≡◌, ◌≢◌, sym, ap, ap₂, ◌∙◌, ◌⊎◌, inl, inr, [], none, String, subst, replicate, length,
}
use traact_core.Prelude.Maps.{
  find_key, emplace, find_key-Distinct, mem-emplace, mem-emplace-kept, Distinct, Distinct-emplace,
}
use traact_core.Pattern.Port.{Port}
use traact_core.Pattern.Build.{Pattern}
use traact_core.Pattern.Instance.{
  PortInstance, PortGroupInstance, PatternInstance, new_port, new_group_instance, port_id,
  port_name,
}
use traact_core.Pattern.Graph.{GraphInstance, new_graph}
use traact_core.Pattern.Graph.Search.{producers, consumers, IsPort}
use traact_core.Pattern.Graph.Invariant.{IsInstance, IsGraph}
use traact_core.Pattern.Graph.Acyclic.{IsRanked}
use traact_core.Pattern.Graph.Connected.{connected-IsGraph, lifted_rank, connected-IsRanked}
use traact_core.Pattern.Graph.Connection.{connect-Connection}
use traact_core.Pattern.Graph.Fresh.{
  empty, added, connected, mem-map, fresh_groups, fresh_port, IsPlain, Built, IsFresh,
  add_pattern-ok,
}

module _ (format : String → ℕ → String → String) where
  module _ (nonempty : (group : String) (index : ℕ) (name : String) → format group index name ≢ "")
      (graph graph' : GraphInstance) (id : String) (pattern : Pattern) (v : IsGraph format graph)
      (plain : IsPlain format pattern) (c : PatternInstance)
      (fresh : find_key id graph.pattern_instances ≡ none) (is_fresh : IsFresh format id pattern c)
      (patterns : graph'.pattern_instances ≡ emplace id c graph.pattern_instances) where
    added_cases :
        (key : String) (d : PatternInstance)
        → Memᴰ (key, d) graph'.pattern_instances
        → (key ≡ id) × (d ≡ c) ⊎ Memᴰ (key, d) graph.pattern_instances
    added_cases key d m =
        mem-emplace id key c d graph.pattern_instances (subst (Memᴰ (key, d)) patterns m)

    not_listed : (d : PatternInstance) → ¬ Memᴰ (id, d) graph.pattern_instances
    not_listed d m = cc (fresh, find_key-Distinct id d graph.pattern_instances v.distinct m)

    -- The ports of the new pattern.
    fresh_output :
        (h : PortGroupInstance) (p : PortInstance)
        → IsPort producers c.port_groups h p
        → (h ≡ new_group_instance is_fresh.first 0)
          × (q : Port) × Memᴰ q is_fresh.first.producer_ports
          × (p ≡ new_port q)
    unfolding new_group_instance
    fresh_output h p x =
        let (same, at) =
          fresh_port producers is_fresh.first (length is_fresh.others) h p
            (subst (λ y. IsPort producers y h p) is_fresh.groups x) in
        let (q, in_ports, e) = mem-map new_port is_fresh.first.producer_ports p at in
        (same, q, in_ports, e)

    fresh_input :
        (h : PortGroupInstance) (q : PortInstance)
        → IsPort consumers c.port_groups h q
        → q.connected_to ≡ ("", "")
    unfolding new_group_instance
    fresh_input h q x =
        let (_, at) =
          fresh_port consumers is_fresh.first (length is_fresh.others) h q
            (subst (λ y. IsPort consumers y h q) is_fresh.groups x) in
        let (_, _, e) = mem-map new_port is_fresh.first.consumer_ports q at in
        ap (λ y. y.connected_to) e

    fresh-IsInstance : IsInstance format c
    unfolding new_group_instance fresh_groups port_name
    fresh-IsInstance = record {
      first = new_group_instance is_fresh.first 0;
      others = [];
      rest = replicate (length is_fresh.others) [];
      has_default = is_fresh.groups;
      typed = λ h p x.
          let (_, q, at, e) = fresh_output h p x in
          ap (λ y. y.port.port_type) e
          ∙ plain.typed is_fresh.first is_fresh.others q is_fresh.shape at;
      plain = λ h h' p p' x y same.
          let (_, q, at, e) = fresh_output h p x in
          let (e₂, q', at', e') = fresh_output h' p' y in
          plain.plain is_fresh.first is_fresh.others q q' is_fresh.shape at at' (
            ap (λ z. z.port.name) (sym e)
            ∙ same
            ∙ ap₂ (λ z w. format z.port_group.name z.port_group_instance_index w.port.name) e₂ e');
    }

    added-IsGraph : IsGraph format graph'
    added-IsGraph = record {
      named = λ key d m. elim (added_cases key d m) [
        | inl (k, e) ↦ ap (λ x. x.instance_id) e ∙ is_fresh.fresh_id ∙ sym k
        | inr old ↦ v.named key d old
      ];
      distinct =
          subst Distinct (sym patterns)
            (Distinct-emplace id c graph.pattern_instances fresh v.distinct);
      instances = λ key d m. elim (added_cases key d m) [
        | inl (k, e) ↦ subst (IsInstance format) (sym e) fresh-IsInstance
        | inr old ↦ v.instances key d old
      ];
      known = λ key d h q m x. elim (added_cases key d m) [
        | inl (k, e) ↦ inl (fresh_input h q (subst (λ y. IsPort consumers y.port_groups h q) e x))
        | inr old ↦ elim (v.known key d h q old x) [
          | inl free ↦ inl free
          | inr (b, listed) ↦ inr (
            b,
            subst (Memᴰ (q.connected_to.0, b)) (sym patterns)
                (mem-emplace-kept id q.connected_to.0 c b graph.pattern_instances listed),
          )
        ]
      ];
    }

    -- The new pattern is connected to nothing.
    added-IsRanked : (rank : String → ℕ) → IsRanked format graph rank → IsRanked format graph' rank
    unfolding port_id port_name
    added-IsRanked rank ranked i j b d m n l = elim (added_cases j d n) [
      | inl (_, e) ↦ absurd (
          let free =
            fresh_input l.input_group l.input
              (subst (λ y. IsPort consumers y.port_groups l.input_group l.input) e l.is_input) in
          nonempty l.output_group.port_group.name l.output_group.port_group_instance_index
            l.output.port.name (ap (λ y. y.1) (sym l.connected ∙ free)))
      | inr old ↦ elim (added_cases i b m) [
        | inl (_, e) ↦ absurd (elim (v.known j d l.input_group l.input old l.is_input) [
          | inl free ↦
              nonempty l.output_group.port_group.name l.output_group.port_group_instance_index
                l.output.port.name (ap (λ y. y.1) (sym l.connected ∙ free))
          | inr (a, listed) ↦ not_listed a (
              subst (λ y. Memᴰ (y, a) graph.pattern_instances)
                (ap (λ y. y.0) l.connected ∙ ap (λ y. y.instance_id) e ∙ is_fresh.fresh_id) listed)
        ])
        | inr old' ↦ ranked i j b d old' old l
      ]
    ]

  new_graph-IsGraph : (name : String) → IsGraph format (new_graph name)
  unfolding new_graph
  new_graph-IsGraph name = record {
    named = λ key c m. absurd (Memᴰ.not-nil m);
    distinct = tt;
    instances = λ key c m. absurd (Memᴰ.not-nil m);
    known = λ key d h q m x. absurd (Memᴰ.not-nil m);
  }

  new_graph-IsRanked : (name : String) → IsRanked format (new_graph name) (λ _. 0)
  unfolding new_graph
  new_graph-IsRanked name i j c d m n l = absurd (Memᴰ.not-nil m)

  -- However patterns are added and connected, the graph stays well formed, and some rank falls along
  -- every connection, so that no pattern can be reached from itself.
  pub built-IsRanked :
      (nonempty : (group : String) (index : ℕ) (name : String) → format group index name ≢ "")
      (graph : GraphInstance)
      → Built format graph
      → IsGraph format graph × (rank : String → ℕ) × IsRanked format graph rank
  built-IsRanked nonempty _ (empty name) =
      (new_graph-IsGraph name, (λ _. 0), new_graph-IsRanked name)
  built-IsRanked nonempty _ (added {graph} {graph'} b id pattern time_domain plain e) =
      let (v, rank, ranked) = built-IsRanked nonempty graph b in
      let (c, fresh, is_fresh, patterns) =
        add_pattern-ok format id pattern time_domain graph graph' e in
      (
        added-IsGraph nonempty graph graph' id pattern v plain c fresh is_fresh patterns,
        rank,
        added-IsRanked nonempty graph graph' id pattern v plain c fresh is_fresh patterns rank
            ranked,
      )
  built-IsRanked nonempty _
        (connected {graph} {graph'} b fuel source producer_port sink consumer_port e) =
      let (v, rank, ranked) = built-IsRanked nonempty graph b in
      let k =
        connect-Connection format fuel source producer_port sink consumer_port graph graph' v e in
      (
        connected-IsGraph format graph graph' fuel v k,
        lifted_rank format graph graph' fuel v k rank ranked,
        connected-IsRanked format graph graph' fuel v k rank ranked,
      )
