-- ===== src/Pattern/Graph/Acyclic.antt =====
-- `would_connect_to_self_recursive` of src/traact/pattern/instance/GraphInstance.cpp in a graph
-- without cycles: it ends, and it says yes for every pattern from which the source is reached.
use mathlib.Core.List.{Memᴰ}
use traact_core.Prelude.{
  ℕ, zero, suc, ◌<◌, ◌≤◌, ◌≡◌, refl, ap, ◌∙◌, inl, inr, List, Bool, true, String, eqb, eqb_iff,
  arith, Bool-cases,
}
use traact_core.Exceptions.{Result, ok, >>=-eq-ok}
use traact_core.Pattern.Instance.{PortInstance, PortGroupInstance, PatternInstance, Found, port_id}
use traact_core.Pattern.Graph.{
  GraphInstance, Place, any_of, leads_back, would_connect_to_self, connected_to_ptr,
}
use traact_core.Pattern.Graph.Search.{producers, consumers, IsPort, any_of-total, any_of_mono}
use traact_core.Pattern.Graph.Invariant.{IsGraph, Leads, outputs_connected}

-- `test_comp->port_groups` and their instances' output ports, with what is done for one port.
abbrev over_ports :
    (PortGroupInstance → PortInstance → Result Bool) → List (List PortGroupInstance) → Result Bool
over_ports f groups =
    any_of (any_of λ (g : PortGroupInstance). any_of (λ (p : PortInstance). f g p) g.producer_ports)
      groups

over_ports-total :
    (f : PortGroupInstance → PortInstance → Result Bool) (groups : List (List PortGroupInstance))
    → ((g : PortGroupInstance) (p : PortInstance)
        → IsPort producers groups g p
        → (b : Bool) × (f g p ≡ ok b))
    → (b : Bool) × (over_ports f groups ≡ ok b)
      × ((g : PortGroupInstance) (p : PortInstance)
          → IsPort producers groups g p
          → f g p ≡ ok true
          → b ≡ true)
over_ports-total f groups h =
    let port =
      λ (gs : List PortGroupInstance) (at : Memᴰ gs groups) (g : PortGroupInstance)
          (in_group : Memᴰ g gs).
        any_of-total (λ (p : PortInstance). f g p) g.producer_ports
          (λ p m.
            h g p (record { group = gs; in_groups = at; in_group = in_group; in_ports = m })) in
    let list = λ (gs : List PortGroupInstance) (at : Memᴰ gs groups).
      any_of-total
        (λ (g : PortGroupInstance). any_of (λ (p : PortInstance). f g p) g.producer_ports) gs
        (λ g m. let (b, e, _) = port gs at g m in (b, e)) in
    let (b, e, found) =
      any_of-total
        (any_of λ (g : PortGroupInstance). any_of (λ (p : PortInstance). f g p) g.producer_ports)
        groups (λ gs at. let (b, e, _) = list gs at in (b, e)) in
    (
      b,
      e,
      λ g p at k.
          let (b₁, e₁, up₁) = port at.group at.in_groups g at.in_group in
          let (b₂, e₂, up₂) = list at.group at.in_groups in
          found at.group at.in_groups
            (e₂ ∙ ap ok (up₂ g at.in_group (e₁ ∙ ap ok (up₁ p at.in_ports k)))),
    )

over_ports_mono :
    (f h : PortGroupInstance → PortInstance → Result Bool) (groups : List (List PortGroupInstance))
    (r : Bool)
    → ((g : PortGroupInstance) (p : PortInstance) (b : Bool) → f g p ≡ ok b → h g p ≡ ok b)
    → over_ports f groups ≡ ok r
    → over_ports h groups ≡ ok r
over_ports_mono f h groups r keep e =
    any_of_mono
      (any_of λ (g : PortGroupInstance). any_of (λ (p : PortInstance). f g p) g.producer_ports)
      (any_of λ (g : PortGroupInstance). any_of (λ (p : PortInstance). h g p) g.producer_ports)
      groups r
      (λ gs b.
        any_of_mono
          (λ (g : PortGroupInstance). any_of (λ (p : PortInstance). f g p) g.producer_ports)
          (λ (g : PortGroupInstance). any_of (λ (p : PortInstance). h g p) g.producer_ports) gs b
          (λ g c.
            any_of_mono (λ (p : PortInstance). f g p) (λ (p : PortInstance). h g p) g.producer_ports
              c (λ p d. keep g p d)))
      e

module _ (format : String → ℕ → String → String) where
  -- A rank that falls along every connection: there is no cycle.
  abbrev pub IsRanked : GraphInstance → (String → ℕ) → Type 0
  IsRanked graph rank =
      (j k : String) (c d : PatternInstance)
      → Memᴰ (j, c) graph.pattern_instances
      → Memᴰ (k, d) graph.pattern_instances
      → Leads format c d
      → rank d.instance_id < rank c.instance_id

  leads_back_mono :
      (graph : GraphInstance) (again again' : PatternInstance → Result Bool) (c : PatternInstance)
      (f : Found) (b : Bool)
      → ((d : PatternInstance) (b : Bool) → again d ≡ ok b → again' d ≡ ok b)
      → leads_back format graph again c f ≡ ok b
      → leads_back format graph again' c f ≡ ok b
  unfolding leads_back
  leads_back_mono graph again again' c f b keep e =
      let (places, known, tail) =
        >>=-eq-ok (connected_to_ptr format (port_id format c f) graph)
          (λ places. any_of (λ (place : Place). again place.0) places) e in
      rw known (
        any_of_mono (λ (place : Place). again place.0) (λ (place : Place). again' place.0) places b
          (λ place b. keep place.0 b) tail)

  -- More fuel changes no answer.
  pub would_connect_mono :
      (n k : ℕ) (graph : GraphInstance) (prod : String) (test : PatternInstance) (b : Bool)
      → n ≤ k
      → would_connect_to_self format n graph prod test ≡ ok b
      → would_connect_to_self format k graph prod test ≡ ok b
  unfolding would_connect_to_self
  would_connect_mono zero k graph prod test b h e = cc
  would_connect_mono (suc n) zero graph prod test b h e = absurd (omega arith)
  would_connect_mono (suc n) (suc k) graph prod test b h e =
      elim (Bool-cases (eqb test.instance_id prod)) [
        | inl same ↦ rw (same, would_connect_to_self) (rw (same, would_connect_to_self) at e)
        | inr other ↦
            rw (other, would_connect_to_self)
              (over_ports_mono
                (λ g p.
                  leads_back format graph (λ next. would_connect_to_self format n graph prod next)
                    test (g, p))
                (λ g p.
                  leads_back format graph (λ next. would_connect_to_self format k graph prod next)
                    test (g, p))
                test.port_groups b
                (λ g p b.
                  leads_back_mono graph (λ next. would_connect_to_self format n graph prod next)
                    (λ next. would_connect_to_self format k graph prod next) test (g, p) b
                    (λ d b. would_connect_mono n k graph prod d b (omega arith)))
                (rw (other, would_connect_to_self) at e))
      ]

  module _ (graph : GraphInstance) (rank : String → ℕ) (v : IsGraph format graph)
      (ranked : IsRanked graph rank) (prod : String) where
    abbrev search : ℕ → PatternInstance → Result Bool
    search fuel test = would_connect_to_self format fuel graph prod test

    -- `again` returns for every pattern that an output port of `test` leads to.
    abbrev Below : (PatternInstance → Result Bool) → PatternInstance → Type 0
    Below again test =
        (k : String) (d : PatternInstance)
        → Memᴰ (k, d) graph.pattern_instances
        → rank d.instance_id < rank test.instance_id
        → (b : Bool) × (again d ≡ ok b)

    leads_back-total :
        (again : PatternInstance → Result Bool) (j : String) (test : PatternInstance)
        (g : PortGroupInstance) (p : PortInstance)
        → Memᴰ (j, test) graph.pattern_instances
        → IsPort producers test.port_groups g p
        → Below again test
        → (b : Bool) × (leads_back format graph again test (g, p) ≡ ok b)
          × ((k : String) (d : PatternInstance) (h : PortGroupInstance) (q : PortInstance)
              → Memᴰ (k, d) graph.pattern_instances
              → IsPort consumers d.port_groups h q
              → q.connected_to ≡ port_id format test (g, p)
              → again d ≡ ok true
              → b ≡ true)
    unfolding leads_back
    leads_back-total again j test g p at is_output below =
        let (places, known, all, only) = outputs_connected format graph j test g p v at is_output in
        let (b, e, up) =
          any_of-total (λ (place : Place). again place.0) places
            (λ place m.
              let (k, listed, is_input, connected) = only place m in
              below k place.0 listed (
                ranked j k test place.0 at listed (record {
                  output_group = g;
                  output = p;
                  input_group = place.1.0;
                  input = place.1.1;
                  is_output = is_output;
                  is_input = is_input;
                  connected = connected;
                }))) in
        (
          b,
          rw known e,
          λ k d h q listed is_input connected yes'.
              up (d, (h, q)) (all k d h q listed is_input connected) yes',
        )

    -- The loops over the output ports of `test`, with a recursive call that returns below it.
    over_ports-Leads :
        (again : PatternInstance → Result Bool) (j : String) (test : PatternInstance)
        → Memᴰ (j, test) graph.pattern_instances
        → Below again test
        → (b : Bool) × (over_ports
              (λ g p. leads_back format graph again test (g, p))
              test.port_groups
            ≡ ok b)
          × ((k : String) (d : PatternInstance)
              → Memᴰ (k, d) graph.pattern_instances
              → Leads format test d
              → again d ≡ ok true
              → b ≡ true)
    over_ports-Leads again j test at below =
        let (b, e, up) =
          over_ports-total (λ g p. leads_back format graph again test (g, p)) test.port_groups
            (λ g p m. let (b, e, _) = leads_back-total again j test g p at m below in (b, e)) in
        (
          b,
          e,
          λ k d listed l yes'.
              let (c, f, here) =
                leads_back-total again j test l.output_group l.output at l.is_output below in
              up l.output_group l.output l.is_output
                (f ∙ ap ok (here k d l.input_group l.input listed l.is_input l.connected yes')),
        )

    -- In a graph without cycles the search returns, with as much fuel as the rank of the pattern.
    pub would_connect-total :
        (fuel : ℕ) (j : String) (test : PatternInstance)
        → Memᴰ (j, test) graph.pattern_instances
        → rank test.instance_id < fuel
        → (b : Bool) × (search fuel test ≡ ok b)
    unfolding would_connect_to_self
    would_connect-total zero j test at h = absurd (omega arith)
    would_connect-total (suc fuel) j test at h = elim (Bool-cases (eqb test.instance_id prod)) [
      | inl same ↦ (true, rw (same, would_connect_to_self) refl)
      | inr other ↦
          let (b, e, _) =
            over_ports-Leads (search fuel) j test at
              (λ k d listed lower. would_connect-total fuel k d listed (omega arith)) in
          (b, rw (other, would_connect_to_self) e)
    ]

    -- The answer for a pattern, with enough fuel.
    abbrev pub Reaches : PatternInstance → Type 0
    Reaches test = search (suc (rank test.instance_id)) test ≡ ok true

    pub Reaches-self : (test : PatternInstance) → test.instance_id ≡ prod → Reaches test
    unfolding would_connect_to_self
    Reaches-self test e = rw ((eqb_iff test.instance_id prod).1 e, would_connect_to_self) refl

    -- A pattern that leads to one from which the source is reached reaches it too.
    pub Reaches-Leads :
        (j k : String) (c d : PatternInstance)
        → Memᴰ (j, c) graph.pattern_instances
        → Memᴰ (k, d) graph.pattern_instances
        → Leads format c d
        → Reaches d
        → Reaches c
    unfolding would_connect_to_self
    Reaches-Leads j k c d at listed l yes' = elim (Bool-cases (eqb c.instance_id prod)) [
      | inl same ↦ rw (same, would_connect_to_self) refl
      | inr other ↦
          let (b, e, up) =
            over_ports-Leads (search (rank c.instance_id)) j c at
              (λ i x here lower. would_connect-total (rank c.instance_id) i x here lower) in
          let lower = ranked j k c d at listed l in
          let known =
            would_connect_mono (suc (rank d.instance_id)) (rank c.instance_id) graph prod d true
              (omega arith) yes' in
          rw (other, would_connect_to_self) (e ∙ ap ok (up k d listed l known))
    ]
