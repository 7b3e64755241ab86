-- ===== src/Pattern/Groups.antt =====
-- `addPort` of src/traact/pattern/Pattern.cpp.
use traact_core.Prelude.{
  ℕ, some, get_elem?, ◌+◌, ◌≡◌, refl, sym, ap, ◌∙◌, ◌⊎◌, inl, inr, [], ◌∷◌, ◌++◌, true, false,
  String, length, length-append, get_elem?-append_one, Bool-cases, arith,
}
use traact_core.Prelude.Int.{ℤ}
use traact_core.Exceptions.{Result, ok, throws, invalid_argument}
use traact_core.Pattern.Port.{
  Port, PortGroup, PortType, count_ports, get_port_count, vector_contains_name,
}
use traact_core.Pattern.Build.{add_port, name_in_use}
use traact_core.Pattern.Numbering.{
  IsGroup, append-IsNumbered, contained, not_contained, append_names,
}

abbrev producer_of : String → ℤ → String → PortGroup → Port
producer_of name td type g = record {
  name = name;
  datatype = type;
  port_type = PortType.producer;
  port_index = count_ports td g.producer_ports;
  time_domain = td;
}

abbrev consumer_of : String → ℤ → String → PortGroup → Port
consumer_of name td type g = record {
  name = name;
  datatype = type;
  port_type = PortType.consumer;
  port_index = count_ports td g.consumer_ports;
  time_domain = td;
}

unused :
    (name : String) (g : PortGroup)
    → name_in_use name g ≡ false
    → (vector_contains_name (λ (p : Port). p.name) g.producer_ports name ≡ false)
      × (vector_contains_name (λ (p : Port). p.name) g.consumer_ports name ≡ false)
unfolding name_in_use
unused name g h = (ground arith, ground arith)

add_producer-IsGroup :
    (name : String) (td : ℤ) (type : String) (g : PortGroup)
    → IsGroup g
    → name_in_use name g ≡ false
    → IsGroup (record g { producer_ports = g.producer_ports ++ producer_of name td type g ∷ [] })
add_producer-IsGroup name td type g v h =
    let (p, c) = unused name g h in
    let new = producer_of name td type g in
    record {
      producers = append-IsNumbered g.producer_ports new v.producers refl;
      consumers = v.consumers;
      producer_names = append_names g.producer_ports new v.producer_names p;
      consumer_names = v.consumer_names;
      separate = λ i j a b k l. elim (get_elem?-append_one g.producer_ports new a i k) [
        | inl k' ↦ v.separate i j a b k' l
        | inr (_, same) ↦
            λ e. not_contained g.consumer_ports name j b c l (sym e ∙ ap (λ x. x.name) same)
      ];
    }

add_consumer-IsGroup :
    (name : String) (td : ℤ) (type : String) (g : PortGroup)
    → IsGroup g
    → name_in_use name g ≡ false
    → IsGroup (record g { consumer_ports = g.consumer_ports ++ consumer_of name td type g ∷ [] })
add_consumer-IsGroup name td type g v h =
    let (p, c) = unused name g h in
    let new = consumer_of name td type g in
    record {
      producers = v.producers;
      consumers = append-IsNumbered g.consumer_ports new v.consumers refl;
      producer_names = v.producer_names;
      consumer_names = append_names g.consumer_ports new v.consumer_names c;
      separate = λ i j a b k l. elim (get_elem?-append_one g.consumer_ports new b j l) [
        | inl l' ↦ v.separate i j a b k l'
        | inr (_, same) ↦
            λ e. not_contained g.producer_ports name i a p k (e ∙ ap (λ x. x.name) same)
      ];
    }

-- The group after a port is added.
abbrev pub Added : PortGroup → Result PortGroup → Type 0
Added g r =
    (h : PortGroup) × (r ≡ ok h)
    × IsGroup h
    × (h.group_index ≡ g.group_index)
    × (length h.producer_ports + length h.consumer_ports
        ≡ length g.producer_ports + length g.consumer_ports + 1)

add_port_unused :
    (name : String) (td : ℤ) (t : PortType) (type : String) (g : PortGroup)
    → IsGroup g
    → name_in_use name g ≡ false
    → Added g (add_port name td t type g)
unfolding add_port get_port_count
add_port_unused name td PortType.producer type g v e = (
  record g { producer_ports = g.producer_ports ++ producer_of name td type g ∷ [] },
  rw (e, add_port) refl,
  add_producer-IsGroup name td type g v e,
  refl,
  omega (arith, length-append g.producer_ports (producer_of name td type g ∷ [])),
)
add_port_unused name td PortType.consumer type g v e = (
  record g { consumer_ports = g.consumer_ports ++ consumer_of name td type g ∷ [] },
  rw (e, add_port) refl,
  add_consumer-IsGroup name td type g v e,
  refl,
  omega (arith, length-append g.consumer_ports (consumer_of name td type g ∷ [])),
)
add_port_unused name td PortType.none_port type g v e = (
  record g { consumer_ports = g.consumer_ports ++ consumer_of name td type g ∷ [] },
  rw (e, add_port) refl,
  add_consumer-IsGroup name td type g v e,
  refl,
  omega (arith, length-append g.consumer_ports (consumer_of name td type g ∷ [])),
)

-- Some port of the group has the name.
abbrev pub HasName : String → PortGroup → Type 0
HasName name g =
    (i : ℕ) × (p : Port) × ((get_elem? g.producer_ports i ≡ some p)
      ⊎ (get_elem? g.consumer_ports i ≡ some p))
    × (p.name ≡ name)

name_in_use-HasName : (name : String) (g : PortGroup) → name_in_use name g ≡ true → HasName name g
unfolding name_in_use
name_in_use-HasName name g h =
    elim (Bool-cases (vector_contains_name (λ (p : Port). p.name) g.producer_ports name)) [
      | inl e ↦ let (i, p, at, same) = contained g.producer_ports name e in (i, p, inl at, same)
      | inr e ↦
          let (i, p, at, same) = contained g.consumer_ports name (ground arith) in
          (i, p, inr at, same)
    ]

unused-HasName : (name : String) (g : PortGroup) → name_in_use name g ≡ false → ¬ HasName name g
unused-HasName name g h = λ (i, p, at, same).
    let (no_producer, no_consumer) = unused name g h in
    elim at [
      | inl k ↦ not_contained g.producer_ports name i p no_producer k same
      | inr k ↦ not_contained g.consumer_ports name i p no_consumer k same
    ]

-- `addPort` throws exactly if a producer or consumer port of the group has the name; otherwise the group keeps its index
-- and gets one more port, and its indices stay numbered and its names distinct.
pub add_port-IsGroup :
    (name : String) (td : ℤ) (t : PortType) (type : String) (g : PortGroup)
    → IsGroup g
    → HasName name g × (add_port name td t type g ≡ throws invalid_argument)
      ⊎ (¬ HasName name g) × Added g (add_port name td t type g)
unfolding add_port
add_port-IsGroup name td t type g v = elim (Bool-cases (name_in_use name g)) [
  | inl e ↦ inl (name_in_use-HasName name g e, rw (e, add_port) refl)
  | inr e ↦ inr (unused-HasName name g e, add_port_unused name td t type g v e)
]
