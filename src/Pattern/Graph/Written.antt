-- ===== src/Pattern/Graph/Written.antt =====
-- The write of `connect` in src/traact/pattern/instance/GraphInstance.cpp: which ports it changes.
use mathlib.Core.List.{Memᴰ}
use mathlib.Core.Option.{map-eq-some_iff}
use traact_core.Prelude.{
  ℕ, ◌≡◌, sym, ap, ◌∙◌, inl, inr, List, [], ◌∷◌, some, String, arith, Option-cases, subst,
}
use traact_core.Exceptions.{ok_injective, ok, ◌>>=◌}
use traact_core.Pattern.Instance.{
  PortId, PortInstance, PortGroupInstance, PatternInstance, port_name, unchecked,
}
use traact_core.Pattern.Graph.Connect.{
  write_port, write_instances, write_groups, write_default, write_connected_to,
}
use traact_core.Pattern.Graph.Search.{producers, consumers, IsPort}
use traact_core.Pattern.Graph.Rewritten.{
  HasDefault, Rewired, Rewritten-refl, FromInstances, FromGroups, written_inputs,
  cons_FromInstances, same_instances, cons_FromGroups, same_groups,
}

module _ (id : PortId) where
  module _ (format : String → ℕ → String → String) (name : String) where
    write_instances-some :
        (gs hs : List PortGroupInstance)
        → write_instances format name id gs ≡ some hs
        → FromInstances id gs hs
    unfolding write_instances
    write_instances-some [] hs e = cc
    write_instances-some (g ∷ gs) hs e =
        elim (Option-cases (write_port (port_name format g) name id g.consumer_ports)) [
          | inl miss ↦
              let (rest, written, same) =
                (map-eq-some_iff (λ hs. g ∷ hs) (write_instances format name id gs)).0
                  (rw (miss, write_instances) at e) in
              subst (FromInstances id (g ∷ gs)) same (
                cons_FromInstances id g g gs rest (Rewritten-refl id g)
                  (write_instances-some gs rest written))
          | inr (ports, hit) ↦
              let same : record g { consumer_ports = ports } ∷ gs ≡ hs = ground (arith, hit) in
              subst (FromInstances id (g ∷ gs)) same (
                cons_FromInstances id g (record g { consumer_ports = ports }) gs gs
                  (written_inputs id (port_name format g) name g ports hit) (same_instances id gs))
        ]

    write_groups-some :
        (groups groups' : List (List PortGroupInstance))
        → write_groups format name id groups ≡ some groups'
        → FromGroups id groups groups'
    unfolding write_groups
    write_groups-some [] groups' e = cc
    write_groups-some (gs ∷ groups) groups' e =
        elim (Option-cases (write_instances format name id gs)) [
          | inl miss ↦
              let (rest, written, same) =
                (map-eq-some_iff (λ hss. gs ∷ hss) (write_groups format name id groups)).0
                  (rw (miss, write_groups) at e) in
              subst (FromGroups id (gs ∷ groups)) same (
                cons_FromGroups id gs gs groups rest (same_instances id gs)
                  (write_groups-some groups rest written))
          | inr (hs, hit) ↦
              let same : hs ∷ groups ≡ groups' = ground (arith, hit) in
              subst (FromGroups id (gs ∷ groups)) same (
                cons_FromGroups id gs hs groups groups (write_instances-some gs hs hit)
                  (same_groups id groups))
        ]

    write_default-some :
        (g : PortGroupInstance) (gs : List PortGroupInstance)
        (rest groups' : List (List PortGroupInstance))
        → write_default format name id ((g ∷ gs) ∷ rest) ≡ some groups'
        → FromGroups id ((g ∷ gs) ∷ rest) groups' × HasDefault groups'
    unfolding write_default
    write_default-some g gs rest groups' e =
        let (ports, written, same) =
          (map-eq-some_iff (λ ports. (record g { consumer_ports = ports } ∷ gs) ∷ rest)
              (write_port (λ p. p.port.name) name id g.consumer_ports)).0
            e in
        (
          subst (FromGroups id ((g ∷ gs) ∷ rest)) same (
              cons_FromGroups id (g ∷ gs) (record g { consumer_ports = ports } ∷ gs) rest rest
                (cons_FromInstances id g (record g { consumer_ports = ports }) gs gs
                  (written_inputs id (λ p. p.port.name) name g ports written)
                  (same_instances id gs))
                (same_groups id rest)),
          (record g { consumer_ports = ports }, gs, rest, sym same),
        )

    write_instances-HasFirst :
        (g : PortGroupInstance) (gs hs : List PortGroupInstance)
        → write_instances format name id (g ∷ gs) ≡ some hs
        → (h : PortGroupInstance) × (hs' : List PortGroupInstance) × (hs ≡ h ∷ hs')
    unfolding write_instances
    write_instances-HasFirst g gs hs e =
        elim (Option-cases (write_port (port_name format g) name id g.consumer_ports)) [
          | inl miss ↦
              let (rest, written, same) =
                (map-eq-some_iff (λ hs. g ∷ hs) (write_instances format name id gs)).0
                  (rw (miss, write_instances) at e) in
              (g, rest, sym same)
          | inr (ports, hit) ↦
              let same : record g { consumer_ports = ports } ∷ gs ≡ hs = ground (arith, hit) in
              (record g { consumer_ports = ports }, gs, sym same)
        ]

    write_groups-HasDefault :
        (g : PortGroupInstance) (gs : List PortGroupInstance)
        (rest groups' : List (List PortGroupInstance))
        → write_groups format name id ((g ∷ gs) ∷ rest) ≡ some groups'
        → HasDefault groups'
    unfolding write_groups
    write_groups-HasDefault g gs rest groups' e =
        elim (Option-cases (write_instances format name id (g ∷ gs))) [
          | inl miss ↦
              let (rest', written, same) =
                (map-eq-some_iff (λ hss. (g ∷ gs) ∷ hss) (write_groups format name id rest)).0
                  (rw (miss, write_groups) at e) in
              (g, gs, rest', sym same)
          | inr (hs, hit) ↦
              let same : hs ∷ rest ≡ groups' = ground (arith, hit) in
              let (h, hs', shape) = write_instances-HasFirst g gs hs hit in
              (h, hs', rest, sym same ∙ ap (λ x. x ∷ rest) shape)
        ]

    written_pattern :
        (c c' : PatternInstance) (groups : List (List PortGroupInstance))
        → write_default format name id c.port_groups ≡ some groups
        → write_connected_to format name id c ≡ ok c'
        → record c { port_groups = groups } ≡ c'
    unfolding write_connected_to
    written_pattern c c' groups hit e = ok_injective (rw (hit, write_connected_to) at e)

    -- What the write leaves as it was.
    pub write_connected_to-some :
        (c c' : PatternInstance) (g : PortGroupInstance) (gs : List PortGroupInstance)
        (rest : List (List PortGroupInstance))
        → c.port_groups ≡ (g ∷ gs) ∷ rest
        → write_connected_to format name id c ≡ ok c'
        → (c'.instance_id ≡ c.instance_id)
          × FromGroups id c.port_groups c'.port_groups
          × HasDefault c'.port_groups
    unfolding write_connected_to
    write_connected_to-some c c' g gs rest shape e =
        elim (Option-cases (write_default format name id c.port_groups)) [
          | inr (groups, hit) ↦
              let same : record c { port_groups = groups } ≡ c' =
                written_pattern c c' groups hit e in
              let (from, default) =
                write_default-some g gs rest groups
                  (ap (write_default format name id) (sym shape) ∙ hit) in
              (
                ap (λ x. x.instance_id) (sym same),
                subst (λ x. FromGroups id c.port_groups x.port_groups) same
                    (subst (λ x. FromGroups id x groups) (sym shape) from),
                subst (λ x. HasDefault x.port_groups) same default,
              )
          | inl miss ↦ elim (Option-cases (write_groups format name id c.port_groups)) [
            | inl lost ↦ absurd (
                let e' : (unchecked (write_groups format name id c.port_groups) >>= λ groups.
                ok (record c { port_groups = groups }))
                    ≡ ok c' =
                  rw (miss, write_connected_to) at e in
                let e'' = rw lost at e' in cc e'')
            | inr (groups, hit) ↦
                let e' : (unchecked (write_groups format name id c.port_groups) >>= λ groups.
                ok (record c { port_groups = groups }))
                    ≡ ok c' =
                  rw (miss, write_connected_to) at e in
                let e'' = rw hit at e' in
                let same : record c { port_groups = groups } ≡ c' = ok_injective e'' in
                (
                  ap (λ x. x.instance_id) (sym same),
                  subst (λ x. FromGroups id c.port_groups x.port_groups) same
                      (write_groups-some c.port_groups groups hit),
                  subst (λ x. HasDefault x.port_groups) same
                      (write_groups-HasDefault g gs rest groups
                        (ap (write_groups format name id) (sym shape) ∙ hit)),
                )
          ]
        ]

  module _ (groups groups' : List (List PortGroupInstance))
      (from : FromGroups id groups groups') where
    -- An output port was there before, in an instance of the same group with the same index.
    pub outputs_before :
        (h : PortGroupInstance) (p : PortInstance)
        → IsPort producers groups' h p
        → (g : PortGroupInstance) × IsPort producers groups g p
          × (h.port_group ≡ g.port_group)
          × (h.port_group_instance_index ≡ g.port_group_instance_index)
    outputs_before h p v =
        let (gs, at, instances) = from v.group v.in_groups in
        let (g, in_group, r) = instances h v.in_group in
        (
          g,
          record {
            group = gs;
            in_groups = at;
            in_group = in_group;
            in_ports = subst (Memᴰ p) r.same_outputs v.in_ports;
          },
          r.same_group,
          r.same_index,
        )

    -- An input port was there before, connected as it is now or the one that was written.
    pub inputs_before :
        (h : PortGroupInstance) (q : PortInstance)
        → IsPort consumers groups' h q
        → (g : PortGroupInstance) × (p : PortInstance) × IsPort consumers groups g p
          × Rewired id p q
    inputs_before h q v =
        let (gs, at, instances) = from v.group v.in_groups in
        let (g, in_group, r) = instances h v.in_group in
        let (p, in_ports, wired) = r.inputs q v.in_ports in
        (
          g,
          p,
          record { group = gs; in_groups = at; in_group = in_group; in_ports = in_ports },
          wired,
        )
