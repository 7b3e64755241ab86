-- ===== src/Pattern/Graph/Connected.antt =====
-- `connect` of src/traact/pattern/instance/GraphInstance.cpp keeps the graph well formed and without
-- cycles.
use mathlib.Core.Option.{some-injective}
use mathlib.Core.List.{Memᴰ}
use traact_core.Prelude.{
  ℕ, suc, ◌+◌, ◌<◌, ◌≤◌, ◌≡◌, refl, sym, ap, ap₂, ◌∙◌, ◌⊎◌, inl, inr, Bool, true, false, none, some,
  String, arith, Bool-cases, subst,
}
use traact_core.Prelude.Maps.{find_key, find_key-Distinct}
use traact_core.Exceptions.{Result, ok}
use traact_core.Pattern.Port.{PortGroup}
use traact_core.Pattern.Instance.{
  PortId, PortInstance, PortGroupInstance, PatternInstance, port_id, port_name,
}
use traact_core.Pattern.Graph.{GraphInstance, would_connect_to_self}
use traact_core.Pattern.Graph.Invariant.{IsInstance, IsGraph, Leads}
use traact_core.Pattern.Graph.Acyclic.{
  IsRanked, Reaches-self, Reaches-Leads, would_connect-total, would_connect_mono,
}
use traact_core.Pattern.Graph.Written.{outputs_before, inputs_before}
use traact_core.Pattern.Graph.Rewritten.{same_groups}
use traact_core.Pattern.Graph.Connection.{Origin, Connection}

module _ (format : String → ℕ → String → String) where
  module _ (graph graph' : GraphInstance) (fuel : ℕ) (v : IsGraph format graph)
      (k : Connection format graph graph' fuel) where
    abbrev id : PortId
    id = port_id format k.prod k.f

    before :
        (key : String) (c' : PatternInstance)
        → Memᴰ (key, c') graph'.pattern_instances
        → Origin format id graph key c'
    before key c' m = elim (k.origin key c' m) [
      | inr (_, o) ↦ o
      | inl (_, old) ↦
          let w = v.instances key c' old in
          (c', old, refl, same_groups id c'.port_groups, (w.first, w.others, w.rest, w.has_default))
    ]

    same_name :
        (g h : PortGroupInstance) (p : PortInstance)
        → h.port_group ≡ g.port_group
        → h.port_group_instance_index ≡ g.port_group_instance_index
        → port_name format h p ≡ port_name format g p
    unfolding port_name
    same_name g h p a b = ap₂ (λ (x : PortGroup) (i : ℕ). format x.name i p.port.name) a b

    connected-IsInstance :
        (key : String) (c' : PatternInstance)
        → Memᴰ (key, c') graph'.pattern_instances
        → IsInstance format c'
    connected-IsInstance key c' m =
        let (c, at, same_id, from, (first, others, rest, shape)) = before key c' m in
        let w = v.instances key c at in
        record {
          first = first;
          others = others;
          rest = rest;
          has_default = shape;
          typed = λ h p x.
              let (g, y, _, _) = outputs_before id c.port_groups c'.port_groups from h p x in
              w.typed g p y;
          plain = λ h h' p q x y e.
              let (g, x', _, _) = outputs_before id c.port_groups c'.port_groups from h p x in
              let (g', y', a, b) = outputs_before id c.port_groups c'.port_groups from h' q y in
              w.plain g g' p q x' y' (e ∙ same_name g' h' q a b);
        }

    -- Where a connection of the new graph comes from.
    Leads-before :
        (i j : String) (c' d' : PatternInstance)
        → Memᴰ (i, c') graph'.pattern_instances
        → Memᴰ (j, d') graph'.pattern_instances
        → Leads format c' d'
        → (c : PatternInstance) × (d : PatternInstance) × Memᴰ (i, c) graph.pattern_instances
          × Memᴰ (j, d) graph.pattern_instances
          × (c'.instance_id ≡ c.instance_id)
          × (d'.instance_id ≡ d.instance_id)
          × (Leads format c d ⊎ (j ≡ k.cons_key) × (c.instance_id ≡ k.prod.instance_id))
    unfolding port_id
    Leads-before i j c' d' m n l =
        let (c, at, same_id, from, _) = before i c' m in
        let (g, is_output, a, b) =
          outputs_before id c.port_groups c'.port_groups from l.output_group l.output l.is_output in
        let same_port : port_id format c' (l.output_group, l.output)
            ≡ port_id format c (g, l.output) =
          ap₂ (λ x y. (x, y)) same_id (same_name g l.output_group l.output a b) in
        elim (k.origin j d' n) [
          | inl (_, old) ↦ (
            c,
            d',
            at,
            old,
            same_id,
            refl,
            inl (record {
              output_group = g;
              output = l.output;
              input_group = l.input_group;
              input = l.input;
              is_output = is_output;
              is_input = l.is_input;
              connected = l.connected ∙ same_port;
            }),
          )
          | inr (named, (d, at', same_id', from', _)) ↦
              let (h, q, is_input, (_, wired)) =
                inputs_before id d.port_groups d'.port_groups from' l.input_group l.input
                  l.is_input in
              (
                c,
                d,
                at,
                at',
                same_id,
                same_id',
                elim wired [
                  | inl kept ↦ inl (record {
                    output_group = g;
                    output = l.output;
                    input_group = h;
                    input = q;
                    is_output = is_output;
                    is_input = is_input;
                    connected = sym kept ∙ l.connected ∙ same_port;
                  })
                  | inr new ↦ inr (named, ap (λ x. x.0) (sym same_port ∙ sym l.connected ∙ new))
                ],
              )
        ]

    pub connected-IsGraph : IsGraph format graph'
    unfolding port_id
    connected-IsGraph = record {
      named =
          λ key c' m. let (c, at, same_id, _, _) = before key c' m in same_id ∙ v.named key c at;
      distinct = k.distinct;
      instances = connected-IsInstance;
      known = λ key d' h' q' m x.
          let (d, at, _, from, _) = before key d' m in
          let (h, q, y, (_, wired)) = inputs_before id d.port_groups d'.port_groups from h' q' x in
          elim wired [
            | inl as_before ↦ elim (v.known key d h q at y) [
              | inl free ↦ inl (as_before ∙ free)
              | inr (c, listed) ↦ inr (
                  k.kept q'.connected_to.0 c (
                    subst (λ j. Memᴰ (j, c) graph.pattern_instances) (ap (λ i. i.0) (sym as_before))
                      listed))
            ]
            | inr new ↦
                let source = sym (v.named k.prod_key k.prod k.prod_at) ∙ ap (λ i. i.0) (sym new) in
                inr (
                  k.kept q'.connected_to.0 k.prod
                    (subst (λ j. Memᴰ (j, k.prod) graph.pattern_instances) source k.prod_at))
          ];
    }

    module _ (rank : String → ℕ) (ranked : IsRanked format graph rank) where
      abbrev answer : PatternInstance → Result Bool
      answer c = would_connect_to_self format (suc (rank c.instance_id)) graph k.prod.instance_id c

      abbrev lift : Result Bool → ℕ → ℕ
      lift (ok true) r = r + rank k.cons.instance_id + 1
      lift _ r = r

      -- What reaches the source goes above the sink.
      pub lifted_rank : String → ℕ
      lifted_rank key = elim (find_key key graph.pattern_instances) [
        | none ↦ rank key
        | some c ↦ lift (answer c) (rank key)
      ]

      lifted_rank-listed :
          (key : String) (c : PatternInstance)
          → Memᴰ (key, c) graph.pattern_instances
          → lifted_rank c.instance_id ≡ lift (answer c) (rank c.instance_id)
      unfolding lifted_rank
      lifted_rank-listed key c m =
          let at : find_key c.instance_id graph.pattern_instances ≡ some c =
            ap (λ x. find_key x graph.pattern_instances) (v.named key c m)
            ∙ find_key-Distinct key c graph.pattern_instances v.distinct m in
          rw (at, lifted_rank) refl

      lifted-lt :
          (i j : String) (c d : PatternInstance)
          → Memᴰ (i, c) graph.pattern_instances
          → Memᴰ (j, d) graph.pattern_instances
          → Leads format c d
          → lift (answer d) (rank d.instance_id) < lift (answer c) (rank c.instance_id)
      lifted-lt i j c d m n l =
          let lower = ranked i j c d m n l in
          let (b, e) =
            would_connect-total format graph rank v ranked k.prod.instance_id
              (suc (rank d.instance_id)) j d n (omega arith) in
          let (b', e') =
            would_connect-total format graph rank v ranked k.prod.instance_id
              (suc (rank c.instance_id)) i c m (omega arith) in
          elim (Bool-cases b) [
            | inl yes' ↦
                let up =
                  Reaches-Leads format graph rank v ranked k.prod.instance_id i j c d m n l
                    (e ∙ ap ok yes') in
                rw (e ∙ ap ok yes', up) (omega arith)
            | inr no' ↦ elim (Bool-cases b') [
              | inl yes' ↦ rw (e ∙ ap ok no', e' ∙ ap ok yes') (omega arith)
              | inr no'' ↦ rw (e ∙ ap ok no', e' ∙ ap ok no'') lower
            ]
          ]

      sink-unreached : answer k.cons ≡ ok false
      sink-unreached =
          let enough = suc (rank k.cons.instance_id) in
          let (b, e) =
            would_connect-total format graph rank v ranked k.prod.instance_id enough k.cons_key
              k.cons k.cons_at (omega arith) in
          let more = λ (n : ℕ) (b : Bool) (le : n ≤ enough + fuel).
            would_connect_mono format n (enough + fuel) graph k.prod.instance_id k.cons b le in
          let same : ok b ≡ ok false =
            sym (more enough b (omega arith) e) ∙ more fuel false (omega arith) k.no_loop in
          e ∙ same

      new-lt :
          (i : String) (c d : PatternInstance)
          → Memᴰ (i, c) graph.pattern_instances
          → Memᴰ (k.cons_key, d) graph.pattern_instances
          → c.instance_id ≡ k.prod.instance_id
          → lift (answer d) (rank d.instance_id) < lift (answer c) (rank c.instance_id)
      new-lt i c d m n e =
          let same : d ≡ k.cons = some-injective d k.cons (
            sym (find_key-Distinct k.cons_key d graph.pattern_instances v.distinct n)
            ∙ find_key-Distinct k.cons_key k.cons graph.pattern_instances v.distinct k.cons_at) in
          let up = Reaches-self format graph rank v ranked k.prod.instance_id c e in
          let no' = sink-unreached in rw (same, no', up) (omega arith)

      pub connected-IsRanked : IsRanked format graph' lifted_rank
      connected-IsRanked i j c' d' m n l =
          let (c, d, at, at', same, same', cases) = Leads-before i j c' d' m n l in
          let lower : lift (answer d) (rank d.instance_id) < lift (answer c) (rank c.instance_id) =
            elim cases [
              | inl old ↦ lifted-lt i j c d at at' old
              | inr (named, source) ↦
                  new-lt i c d at (subst (λ x. Memᴰ (x, d) graph.pattern_instances) named at')
                    source
            ] in
          rw (same, same', lifted_rank-listed i c at, lifted_rank-listed j d at') lower
