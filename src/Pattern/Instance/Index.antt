-- ===== src/Pattern/Instance/Index.antt =====
-- `getPortIndex` of src/traact/pattern/instance/PortInstance.cpp gives the position of a port in
-- `getProducerPorts` or `getConsumerPorts`.
use traact_core.Prelude.{
  ℕ, ◌+◌, ◌≤◌, ◌≡◌, ◌≢◌, refl, sym, ap, ◌∙◌, inl, inr, List, [], ◌∷◌, Bool, true, false, ◌&&◌, some,
  String, eqb, eqb_iff, arith, Bool-cases, subst, length, get_elem?, ◌==◌, length-append,
  get_elem?-append_cases,
}
use traact_core.Prelude.Int.{ℤ}
use traact_core.Exceptions.{ok_injective, ok}
use traact_core.Pattern.Port.{PortGroup, PortType}
use traact_core.Pattern.Instance.{
  PortInstance, PortGroupInstance, PatternInstance, Found, found, going, get_port_list,
  instance_port_count, scan_instances, scan_groups, get_port_group_start_index, get_port_index,
  ports_in_groups,
}
use traact_core.Pattern.Instance.Picked.{
  Instances, Others, Groups, picked, picked_instances, picked_groups, length-picked, picked-index,
  ports_in_groups-picked, numbered-From,
}

module _ (type : PortType) (select : PortGroupInstance → List PortInstance)
    (reads : (g : PortGroupInstance) → get_port_list type g ≡ ok (select g)) (c : PatternInstance)
    (td global : ℤ) where
  -- A picked port of these instances: its group has the name, and an index from `j` on.
  picked_instances_self :
      (name : String) (j : ℕ) (gs : List PortGroupInstance) (n : ℕ) (h : PortGroupInstance)
      (p : PortInstance)
      → Instances type select reads c td global name j gs
      → get_elem? (picked_instances type select reads c td global gs) n ≡ some (h, p)
      → (h.port_group.name ≡ name)
        × (j ≤ h.port_group_instance_index)
        × (p.port.time_domain ≡ td)
        × (p.port.port_type ≡ type)
  picked_instances_self name j [] n h p v e = cc
  picked_instances_self name j (g ∷ gs) n h p v e =
      elim (get_elem?-append_cases (picked type select reads c td global g (select g))
        (picked_instances type select reads c td global gs) n (h, p) e) [
          | inl here ↦
              let (same, _, domain, i, at) =
                picked-index type select reads c td global g (select g) 0 n h p
                  (numbered-From type select reads c td global g v.2) here in
              (
                ap (λ x. x.port_group.name) same ∙ v.0,
                (let k = ap (λ x. x.port_group_instance_index) same in omega (arith, k, v.1)),
                domain,
                v.2.typed i p at,
              )
          | inr (m, _, later) ↦
              let (a, b, d, t) = picked_instances_self name (j + 1) gs m h p v.3 later in
              (a, omega arith, d, t)
        ]

  count-picked :
      (g : PortGroupInstance)
      → instance_port_count td type g
        ≡ ok (length (picked type select reads c td global g (select g)))
  unfolding instance_port_count
  count-picked g =
      rw (reads g, instance_port_count)
        (ap ok (sym (length-picked type select reads c td global g (select g))))

  and_false : (a b : Bool) → b ≡ false → (a && b) ≡ false
  and_false a b h = ground (arith, h)

  eqb-false : (s t : String) → s ≢ t → eqb s t ≡ false
  eqb-false s t h = elim (Bool-cases (eqb s t)) [
    | inl e ↦ absurd (h ((eqb_iff s t).0 e))
    | inr e ↦ e
  ]

  -- The loop over the instances of another group adds up their ports.
  scan_instances-other :
      (self : PortGroupInstance) (name : String) (j : ℕ) (gs : List PortGroupInstance) (r : ℕ)
      → self.port_group.name ≢ name
      → Instances type select reads c td global name j gs
      → scan_instances td type self name gs r
        ≡ ok (going (r + length (picked_instances type select reads c td global gs)))
  unfolding scan_instances
  scan_instances-other self name j [] r other v = ap (λ n. ok (going n)) (omega arith)
  scan_instances-other self name j (g ∷ gs) r other v =
      let miss = eqb-false name self.port_group.name (λ e. other (sym e)) in
      rw (miss, count-picked g)
        (scan_instances-other self name (j + 1) gs
            (r + length (picked type select reads c td global g (select g))) other v.3
          ∙ ap (λ n. ok (going n))
              (omega (
                arith,
                length-append (picked type select reads c td global g (select g))
                    (picked_instances type select reads c td global gs),
              )))

  -- What the scan finds for the `n`-th port of the lists.
  abbrev IsFound : ℕ → ℕ → Found → (ℕ → Type 0) → Type 0
  IsFound r n (h, p) Result_is = (s : ℕ) × Result_is (r + s) × (s + p.port.port_index ≡ n)

  scan_instances_self :
      (name : String) (j : ℕ) (gs : List PortGroupInstance) (r n : ℕ) (h : PortGroupInstance)
      (p : PortInstance)
      → Instances type select reads c td global name j gs
      → get_elem? (picked_instances type select reads c td global gs) n ≡ some (h, p)
      → IsFound r n (h, p) (λ k. scan_instances td type h name gs r ≡ ok (found k))
  unfolding scan_instances
  scan_instances_self name j [] r n h p v e = cc
  scan_instances_self name j (g ∷ gs) r n h p v e =
      elim (get_elem?-append_cases (picked type select reads c td global g (select g))
        (picked_instances type select reads c td global gs) n (h, p) e) [
          | inl here ↦
              let (same, index, _, _, _) =
                picked-index type select reads c td global g (select g) 0 n h p
                  (numbered-From type select reads c td global g v.2) here in
              let hit : eqb name h.port_group.name ≡ true =
                (eqb_iff name h.port_group.name).1 (sym (ap (λ x. x.port_group.name) same ∙ v.0)) in
              let hit' : (g.port_group_instance_index == h.port_group_instance_index) ≡ true =
                (let k = ap (λ x. x.port_group_instance_index) same in ground (arith, k)) in
              (0, rw (hit, hit') (ap (λ k. ok (found k)) (omega arith)), omega (arith, index))
          | inr (m, at, later) ↦
              let (_, above, _, _) = picked_instances_self name (j + 1) gs m h p v.3 later in
              let number = v.1 in
              let miss : (g.port_group_instance_index == h.port_group_instance_index) ≡ false =
                ground (arith, number, above) in
              let (s, scan, sum) =
                scan_instances_self name (j + 1) gs
                  (r + length (picked type select reads c td global g (select g))) m h p v.3
                  later in
              (
                length (picked type select reads c td global g (select g)) + s,
                rw (and_false (eqb name h.port_group.name) _ miss, count-picked g)
                    (scan ∙ ap (λ k. ok (found k)) (omega arith)),
                omega (arith, sum, at),
              )
        ]

  picked_groups_self :
      (name : String) (groups : List PortGroup) (lists : List (List PortGroupInstance)) (n : ℕ)
      (h : PortGroupInstance) (p : PortInstance)
      → Groups type select reads c td global groups lists
      → Others type select reads c td global name groups
      → get_elem? (picked_groups type select reads c td global lists) n ≡ some (h, p)
      → (h.port_group.name ≢ name) × (p.port.time_domain ≡ td) × (p.port.port_type ≡ type)
  picked_groups_self name [] [] n h p v o e = cc
  picked_groups_self name [] (l ∷ lists) n h p v o e = absurd v
  picked_groups_self name (g ∷ groups) [] n h p v o e = absurd v
  picked_groups_self name (g ∷ groups) (l ∷ lists) n h p v o e =
      elim (get_elem?-append_cases (picked_instances type select reads c td global l)
        (picked_groups type select reads c td global lists) n (h, p) e) [
          | inl here ↦
              let (named, _, d, t) = picked_instances_self g.name 0 l n h p v.0 here in
              (λ same. o.0 (sym named ∙ same), d, t)
          | inr (m, _, later) ↦ picked_groups_self name groups lists m h p v.2 o.1 later
        ]

  scan_groups_self :
      (groups : List PortGroup) (lists : List (List PortGroupInstance)) (r n : ℕ)
      (h : PortGroupInstance) (p : PortInstance)
      → Groups type select reads c td global groups lists
      → get_elem? (picked_groups type select reads c td global lists) n ≡ some (h, p)
      → IsFound r n (h, p) (λ k. scan_groups td type h (length groups) groups lists r ≡ ok k)
        × (p.port.time_domain ≡ td)
        × (p.port.port_type ≡ type)
  unfolding scan_groups
  scan_groups_self [] [] r n h p v e = cc
  scan_groups_self [] (l ∷ lists) r n h p v e = absurd v
  scan_groups_self (g ∷ groups) [] r n h p v e = absurd v
  scan_groups_self (g ∷ groups) (l ∷ lists) r n h p v e =
      elim (get_elem?-append_cases (picked_instances type select reads c td global l)
        (picked_groups type select reads c td global lists) n (h, p) e) [
          | inl here ↦
              let (s, scan, sum) = scan_instances_self g.name 0 l r n h p v.0 here in
              let (_, _, d, t) = picked_instances_self g.name 0 l n h p v.0 here in
              ((s, rw scan refl, sum), d, t)
          | inr (m, at, later) ↦
              let (other, d, t) = picked_groups_self g.name groups lists m h p v.2 v.1 later in
              let ((s, scan, sum), _, _) =
                scan_groups_self groups lists
                  (r + length (picked_instances type select reads c td global l)) m h p v.2 later in
              (
                (
                  length (picked_instances type select reads c td global l) + s,
                  rw (scan_instances-other h g.name 0 l r other v.0) (scan ∙ ap ok (omega arith)),
                  omega (arith, sum, at),
                ),
                d,
                t,
              )
        ]

  -- In a pattern instance whose groups have different names, whose instances of a group and ports of a
  -- time domain are numbered in order, and in which a port is in the global time domain that is asked
  -- for exactly if it is in the one local time domain `td`, the ports of that domain are listed in the order of their indices: the port at position `n` of the
  -- list, of `getProducerPorts` or of `getConsumerPorts`, has the index `n`.
  pub get_port_index-position :
      (ports : List Found) (n : ℕ) (g : PortGroupInstance) (p : PortInstance)
      → Groups type select reads c td global c.local_pattern.port_groups c.port_groups
      → length c.port_group_name_to_index ≡ length c.local_pattern.port_groups
      → ports_in_groups select global c c.port_groups ≡ ok ports
      → get_elem? ports n ≡ some (g, p)
      → get_port_index c g p ≡ ok n
  unfolding get_port_index get_port_group_start_index
  get_port_index-position ports n g p v size listed at =
      let same : picked_groups type select reads c td global c.port_groups ≡ ports = ok_injective (
        sym (
          ports_in_groups-picked type select reads c td global c.local_pattern.port_groups
            c.port_groups v)
        ∙ listed) in
      let ((s, scan, sum), d, t) =
        scan_groups_self c.local_pattern.port_groups c.port_groups 0 n g p v
          (subst (λ l. get_elem? l n ≡ some (g, p)) (sym same) at) in
      rw (d, t, size, scan) (ap ok (omega (arith, sum)))
