-- ===== src/Pattern/Instance/Picked.antt =====
-- src/traact/pattern/instance/PatternInstance.cpp: which ports `getProducerPorts` and
-- `getConsumerPorts` list.
use traact_core.Prelude.{
  ℕ, zero, suc, ◌+◌, ◌≡◌, ◌≢◌, refl, sym, ap, ◌∙◌, inl, inr, List, [], ◌∷◌, ◌++◌, true, false, some,
  String, if◌then◌else◌, arith, Bool-cases, subst, map, length, get_elem?,
}
use traact_core.Prelude.Int.{ℤ, eqb_ℤ, eqb_ℤ_iff}
use traact_core.Exceptions.{ok}
use traact_core.Pattern.Port.{PortGroup, PortType}
use traact_core.Pattern.Numbering.{count_first}
use traact_core.Pattern.Instance.{
  PortInstance, PortGroupInstance, PatternInstance, Found, get_time_domain, get_port_list,
  count_instances, ports_in_list, ports_in_instances, ports_in_groups,
}

module _ (type : PortType) (select : PortGroupInstance → List PortInstance)
    (reads : (g : PortGroupInstance) → get_port_list type g ≡ ok (select g)) (c : PatternInstance)
    (td global : ℤ) where
  -- The ports of an instance are of the type, numbered in their time domain, and in the global time
  -- domain exactly if they are in the local one.
  pub record IsNumberedInstance (g : PortGroupInstance) : Type 0 where
    pub typed :
        (i : ℕ) (p : PortInstance) → get_elem? (select g) i ≡ some p → p.port.port_type ≡ type
    pub numbered :
        (i : ℕ) (p : PortInstance)
        → get_elem? (select g) i ≡ some p
        → p.port.port_index ≡ count_first p.port.time_domain i (map (λ q. q.port) (select g))
    pub domains :
        (i : ℕ) (p : PortInstance)
        → get_elem? (select g) i ≡ some p
        → (d : ℤ) × (get_time_domain c p ≡ ok d) × (eqb_ℤ d global ≡ eqb_ℤ p.port.time_domain td)

  -- The instances of the group with a name, numbered from `j` on.
  abbrev pub Instances : String → ℕ → List PortGroupInstance → Type 0
  Instances name j [] = Unit {0}
  Instances name j (g ∷ gs) =
      (g.port_group.name ≡ name)
      × (g.port_group_instance_index ≡ j)
      × IsNumberedInstance g
      × Instances name (j + 1) gs

  abbrev pub Others : String → List PortGroup → Type 0
  Others name [] = Unit {0}
  Others name (g ∷ gs) = (g.name ≢ name) × Others name gs

  -- The groups of the pattern have different names, and each its instances.
  abbrev pub Groups : List PortGroup → List (List PortGroupInstance) → Type 0
  Groups [] [] = Unit {0}
  Groups (g ∷ gs) (list ∷ lists) = Instances g.name 0 list × Others g.name gs × Groups gs lists
  Groups _ _ = ⊥

  -- The ports of the time domain.
  abbrev pub picked : PortGroupInstance → List PortInstance → List Found
  picked g [] = []
  picked g (p ∷ ps) = if eqb_ℤ p.port.time_domain td then (g, p) ∷ picked g ps else picked g ps

  abbrev pub picked_instances : List PortGroupInstance → List Found
  picked_instances [] = []
  picked_instances (g ∷ gs) = picked g (select g) ++ picked_instances gs

  abbrev pub picked_groups : List (List PortGroupInstance) → List Found
  picked_groups [] = []
  picked_groups (gs ∷ gss) = picked_instances gs ++ picked_groups gss

  pub length-picked :
      (g : PortGroupInstance) (ps : List PortInstance)
      → length (picked g ps) ≡ count_instances td ps
  unfolding count_instances
  length-picked g [] = refl
  length-picked g (p ∷ ps) = ground (arith, length-picked g ps)

  -- The ports of the time domain are numbered from `k` on.
  abbrev pub From : ℕ → List PortInstance → Type 0
  From k ps =
      (i : ℕ) (q : PortInstance)
      → get_elem? ps i ≡ some q
      → q.port.time_domain ≡ td
      → q.port.port_index ≡ k + count_first td i (map (λ r. r.port) ps)

  pub From-skip :
      (k : ℕ) (x : PortInstance) (ps : List PortInstance)
      → eqb_ℤ x.port.time_domain td ≡ false
      → From k (x ∷ ps)
      → From k ps
  From-skip k x ps miss f i q e same = rw miss at (f (suc i) q e same)

  pub From-tail :
      (k : ℕ) (x : PortInstance) (ps : List PortInstance)
      → eqb_ℤ x.port.time_domain td ≡ true
      → From k (x ∷ ps)
      → From (k + 1) ps
  From-tail k x ps hit f i q e same = (rw hit at (f (suc i) q e same)) ∙ omega arith

  -- Where a picked port comes from.
  abbrev pub IsPicked : PortGroupInstance → List PortInstance → ℕ → Found → Type 0
  IsPicked g ps n (h, p) =
      (h ≡ g)
      × (p.port.port_index ≡ n)
      × (p.port.time_domain ≡ td)
      × (i : ℕ) × (get_elem? ps i ≡ some p)

  pub picked-first :
      (g : PortGroupInstance) (x : PortInstance) (ps : List PortInstance) (k n : ℕ)
      (h : PortGroupInstance) (p : PortInstance)
      → From k (x ∷ ps)
      → eqb_ℤ x.port.time_domain td ≡ true
      → ((m : ℕ) → get_elem? (picked g ps) m ≡ some (h, p) → IsPicked g ps (k + 1 + m) (h, p))
      → get_elem? ((g, x) ∷ picked g ps) n ≡ some (h, p)
      → IsPicked g (x ∷ ps) (k + n) (h, p)
  picked-first g x ps k zero h p f hit later e =
      let group : g ≡ h = cc in
      let port : x ≡ p = cc in
      let domain = (eqb_ℤ_iff x.port.time_domain td).0 hit in
      (
        sym group,
        subst (λ y. y.port.port_index ≡ k + 0) port (f 0 x refl domain),
        subst (λ y. y.port.time_domain ≡ td) port domain,
        0,
        ap some port,
      )
  picked-first g x ps k (suc n) h p f hit later e =
      let (a, b, d, i, at) = later n e in (a, b ∙ omega arith, d, suc i, at)

  -- The `n`-th port that is picked has the index `n`.
  pub picked-index :
      (g : PortGroupInstance) (ps : List PortInstance) (k n : ℕ) (h : PortGroupInstance)
      (p : PortInstance)
      → From k ps
      → get_elem? (picked g ps) n ≡ some (h, p)
      → IsPicked g ps (k + n) (h, p)
  picked-index g [] k n h p f e = cc
  picked-index g (x ∷ ps) k n h p f e = elim (Bool-cases (eqb_ℤ x.port.time_domain td)) [
    | inl hit ↦
        picked-first g x ps k n h p f hit
          (λ m e'. picked-index g ps (k + 1) m h p (From-tail k x ps hit f) e') (rw hit at e)
    | inr miss ↦
        let (a, b, d, i, at) = picked-index g ps k n h p (From-skip k x ps miss f) (rw miss at e) in
        (a, b, d, suc i, at)
  ]

  pub ports_in_list-picked :
      (g : PortGroupInstance) (ps : List PortInstance)
      → ((i : ℕ) (p : PortInstance)
          → get_elem? ps i ≡ some p
          → (d : ℤ) × (get_time_domain c p ≡ ok d) × (eqb_ℤ d global ≡ eqb_ℤ p.port.time_domain td))
      → ports_in_list global c g ps ≡ ok (picked g ps)
  unfolding ports_in_list
  ports_in_list-picked g [] f = refl
  ports_in_list-picked g (p ∷ ps) f =
      let (d, domain, same) = f 0 p refl in
      let rest = ports_in_list-picked g ps (λ i q e. f (suc i) q e) in rw (domain, rest, same) refl

  pub ports_in_instances-picked :
      (name : String) (j : ℕ) (gs : List PortGroupInstance)
      → Instances name j gs
      → ports_in_instances select global c gs ≡ ok (picked_instances gs)
  unfolding ports_in_instances
  ports_in_instances-picked name j [] v = refl
  ports_in_instances-picked name j (g ∷ gs) v =
      rw
        (
          ports_in_list-picked g (select g) v.2.domains,
          ports_in_instances-picked name (j + 1) gs v.3,
        )
        refl

  pub ports_in_groups-picked :
      (groups : List PortGroup) (lists : List (List PortGroupInstance))
      → Groups groups lists
      → ports_in_groups select global c lists ≡ ok (picked_groups lists)
  unfolding ports_in_groups
  ports_in_groups-picked [] [] v = refl
  ports_in_groups-picked [] (l ∷ lists) v = absurd v
  ports_in_groups-picked (g ∷ groups) [] v = absurd v
  ports_in_groups-picked (g ∷ groups) (l ∷ lists) v =
      rw (ports_in_instances-picked g.name 0 l v.0, ports_in_groups-picked groups lists v.2) refl

  pub numbered-From : (g : PortGroupInstance) → IsNumberedInstance g → From 0 (select g)
  numbered-From g v i q at same =
      v.numbered i q at
      ∙ ap (λ d. count_first d i (map (λ r. r.port) (select g))) same
      ∙ omega arith
