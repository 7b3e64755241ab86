-- ===== src/Pattern/Graph/Rewritten.antt =====
-- src/traact/pattern/instance/PatternInstance.cpp: what `getConsumerPort` leaves of a pattern when the
-- port that it finds is written.
use mathlib.Core.List.{Memᴰ}
use mathlib.Core.List.Memᴰ
use mathlib.Core.Option.{map-eq-some_iff}
use traact_core.Prelude.{
  ◌≡◌, refl, sym, ap, ◌⊎◌, inl, inr, List, [], ◌∷◌, some, String, eqb, arith, Bool-cases, subst,
}
use traact_core.Pattern.Instance.{PortId, PortInstance, PortGroupInstance}
use traact_core.Pattern.Graph.Connect.{write_port}

-- The groups still begin with an instance of the default group.
abbrev pub HasDefault : List (List PortGroupInstance) → Type 0
HasDefault groups =
    (g : PortGroupInstance) × (gs : List PortGroupInstance) × (rest : List (List PortGroupInstance))
    × (groups ≡ (g ∷ gs) ∷ rest)

module _ (id : PortId) where
  -- `q` is the port `p`, connected to `id` or as before.
  abbrev pub Rewired : PortInstance → PortInstance → Type 0
  Rewired p q = (q.port ≡ p.port) × ((q.connected_to ≡ p.connected_to) ⊎ (q.connected_to ≡ id))

  -- `h` is the instance `g` of a group but for what its inputs are connected to.
  pub record Rewritten (g h : PortGroupInstance) : Type 0 where
    pub same_group : h.port_group ≡ g.port_group
    pub same_index : h.port_group_instance_index ≡ g.port_group_instance_index
    pub same_outputs : h.producer_ports ≡ g.producer_ports
    pub inputs :
        (q : PortInstance)
        → Memᴰ q h.consumer_ports
        → (p : PortInstance) × Memᴰ p g.consumer_ports × Rewired p q

  pub Rewritten-refl : (g : PortGroupInstance) → Rewritten g g
  Rewritten-refl g = record {
    same_group = refl;
    same_index = refl;
    same_outputs = refl;
    inputs = λ q m. (q, m, (refl, inl refl));
  }

  abbrev pub FromInstances : List PortGroupInstance → List PortGroupInstance → Type 0
  FromInstances gs hs =
      (h : PortGroupInstance) → Memᴰ h hs → (g : PortGroupInstance) × Memᴰ g gs × Rewritten g h

  abbrev pub FromGroups : List (List PortGroupInstance) → List (List PortGroupInstance) → Type 0
  FromGroups groups groups' =
      (hs : List PortGroupInstance)
      → Memᴰ hs groups'
      → (gs : List PortGroupInstance) × Memᴰ gs groups × FromInstances gs hs

  pub write_port-some :
      (get_name : PortInstance → String) (name : String) (ps qs : List PortInstance)
      → write_port get_name name id ps ≡ some qs
      → (q : PortInstance) → Memᴰ q qs
      → (p : PortInstance) × Memᴰ p ps × Rewired p q
  unfolding write_port
  write_port-some get_name name [] qs e q m = cc
  write_port-some get_name name (x ∷ ps) qs e q m = elim (Bool-cases (eqb (get_name x) name)) [
    | inl hit ↦
        let same : record x { connected_to = id } ∷ ps ≡ qs = ground (arith, hit) in
        elim (Memᴰ.cases_cons (subst (Memᴰ q) (sym same) m)) [
          | inl first ↦
              (x, Memᴰ.head refl, (ap (λ y. y.port) first, inr (ap (λ y. y.connected_to) first)))
          | inr later ↦ (q, Memᴰ.tail later, (refl, inl refl))
        ]
    | inr miss ↦
        let (rest, written, same) =
          (map-eq-some_iff (λ qs. x ∷ qs) (write_port get_name name id ps)).0
            (rw (miss, write_port) at e) in
        elim (Memᴰ.cases_cons (subst (Memᴰ q) (sym same) m)) [
          | inl first ↦ (q, Memᴰ.head first, (refl, inl refl))
          | inr later ↦
              let (p, at, wired) = write_port-some get_name name ps rest written q later in
              (p, Memᴰ.tail at, wired)
        ]
  ]

  pub written_inputs :
      (get_name : PortInstance → String) (name : String) (g : PortGroupInstance)
      (ports : List PortInstance)
      → write_port get_name name id g.consumer_ports ≡ some ports
      → Rewritten g (record g { consumer_ports = ports })
  written_inputs get_name name g ports e = record {
    same_group = refl;
    same_index = refl;
    same_outputs = refl;
    inputs = write_port-some get_name name g.consumer_ports ports e;
  }

  pub cons_FromInstances :
      (g h : PortGroupInstance) (gs hs : List PortGroupInstance)
      → Rewritten g h
      → FromInstances gs hs
      → FromInstances (g ∷ gs) (h ∷ hs)
  cons_FromInstances g h gs hs first later x m = elim (Memᴰ.cases_cons m) [
    | inl same ↦ (g, Memᴰ.head refl, subst (Rewritten g) (sym same) first)
    | inr m' ↦ let (y, at, r) = later x m' in (y, Memᴰ.tail at, r)
  ]

  pub same_instances : (gs : List PortGroupInstance) → FromInstances gs gs
  same_instances gs h m = (h, m, Rewritten-refl h)

  pub cons_FromGroups :
      (gs hs : List PortGroupInstance) (groups groups' : List (List PortGroupInstance))
      → FromInstances gs hs
      → FromGroups groups groups'
      → FromGroups (gs ∷ groups) (hs ∷ groups')
  cons_FromGroups gs hs groups groups' first later x m = elim (Memᴰ.cases_cons m) [
    | inl same ↦ (gs, Memᴰ.head refl, subst (FromInstances gs) (sym same) first)
    | inr m' ↦ let (y, at, r) = later x m' in (y, Memᴰ.tail at, r)
  ]

  pub same_groups : (groups : List (List PortGroupInstance)) → FromGroups groups groups
  same_groups groups hs m = (hs, m, same_instances hs)
