-- ===== src/Pattern/Graph/Returns.antt =====
-- `connect` of src/traact/pattern/instance/GraphInstance.cpp ends on every graph that was built.
use traact_core.Prelude.{
  ℕ, suc, ◌+◌, ◌<◌, ◌≡◌, ◌≢◌, refl, sym, inl, inr, List, Bool, true, false, Option, none, some,
  String, eqb, if◌then◌else◌, arith, Option-cases, subst, get_elem?,
}
use traact_core.Prelude.Int.{ℤ, pos, negsuc, eqb_ℤ}
use traact_core.Prelude.Maps.{find_key, find_key-mem}
use traact_core.Exceptions.{Result, ok, throws, out_of_fuel, invalid_argument, ◌>>=◌}
use traact_core.Pattern.Instance.{
  PortInstance, PortGroupInstance, PatternInstance, Found, get_producer_port, get_consumer_port,
  get_port_of, get_time_domain, default_instance, unchecked, at_index, port_id,
}
use traact_core.Pattern.Graph.{GraphInstance, would_connect_to_self, at_pattern}
use traact_core.Pattern.Graph.Connect.{
  ConnectionError, or_error, check_ports, check_source_and_sink, set_connection, connect,
  write_connected_to, write_default, write_groups,
}
use traact_core.Pattern.Graph.Acyclic.{would_connect-total}
use traact_core.Pattern.Graph.Built.{built-IsRanked}
use traact_core.Pattern.Graph.Fresh.{Built}

-- A run that ends, with a value or an exception.
abbrev pub Ends {ℓ} : {A : Type ℓ} → Result A → Type ℓ
Ends r = ¬ (r ≡ out_of_fuel)

Ends-ok {ℓ} : {A : Type ℓ} (a : A) → Ends (ok a)
Ends-ok a e = cc

Ends->>= {ℓ κ} :
    {A : Type ℓ} {B : Type κ} (m : Result A) (f : A → Result B)
    → Ends m
    → ((a : A) → Ends (f a))
    → Ends (m >>= f)
Ends->>= (ok a) f h k = k a
Ends->>= (throws x) f h k = λ e. cc
Ends->>= out_of_fuel f h k = absurd (h refl)

Ends-unchecked {ℓ} : {A : Type ℓ} (o : Option A) → Ends (unchecked o)
Ends-unchecked none e = cc
Ends-unchecked (some a) e = cc

Ends-at_index {ℓ} : {A : Type ℓ} (xs : List A) (i : ℤ) → Ends (at_index xs i)
Ends-at_index xs (negsuc i) e = cc
Ends-at_index xs (pos i) e = elim (Option-cases (get_elem? xs i)) [
  | inl h ↦ absurd (ground (arith, h))
  | inr (a, h) ↦ absurd (ground (arith, h))
]

Ends-or_error {ℓ} :
    {A : Type ℓ} (x : ConnectionError) (o : Option A) (f : A → Result (Option ConnectionError))
    → ((a : A) → o ≡ some a → Ends (f a))
    → Ends (or_error x o f)
Ends-or_error x none f h = λ e. cc
Ends-or_error x (some a) f h = h a refl

Ends-if {ℓ} : {A : Type ℓ} (b : Bool) (x y : Result A) → Ends x → Ends y → Ends (if b then x else y)
Ends-if true x y h k = h
Ends-if false x y h k = k

Ends-at_pattern : (key : String) (graph : GraphInstance) → Ends (at_pattern key graph)
unfolding at_pattern
Ends-at_pattern key graph e = elim (Option-cases (find_key key graph.pattern_instances)) [
  | inl h ↦ absurd (ground (arith, h))
  | inr (a, h) ↦ absurd (ground (arith, h))
]

module _ (format : String → ℕ → String → String) where
  Ends-get_port_of :
      (select : PortGroupInstance → List PortInstance) (name : String) (c : PatternInstance)
      → Ends (get_port_of format select name c)
  unfolding get_port_of default_instance
  Ends-get_port_of select name c =
      Ends->>= (default_instance c) _
        (Ends->>= (at_index c.port_groups (pos 0)) _ (Ends-at_index c.port_groups (pos 0))
          (λ list. Ends-unchecked (get_elem? list 0)))
        (λ g. Ends-ok _)

  Ends-write_connected_to :
      (name : String) (id : String × String) (c : PatternInstance)
      → Ends (write_connected_to format name id c)
  unfolding write_connected_to
  Ends-write_connected_to name id c =
      elim (Option-cases (write_default format name id c.port_groups)) [
        | inr (groups, h) ↦ rw (h, write_connected_to) (Ends-ok _)
        | inl h ↦
            rw (h, write_connected_to)
              (Ends->>= (unchecked (write_groups format name id c.port_groups)) _ (Ends-unchecked _)
                (λ groups. Ends-ok _))
      ]

  Ends-set_connection :
      (source producer_port sink consumer_port : String) (graph : GraphInstance)
      → Ends (set_connection format source producer_port sink consumer_port graph)
  unfolding set_connection get_producer_port
  Ends-set_connection source producer_port sink consumer_port graph =
      Ends->>= (at_pattern source graph) _ (Ends-at_pattern source graph) λ prod.
        Ends->>= (get_producer_port format producer_port prod) _
          (Ends-get_port_of _ producer_port prod)
          λ port. Ends->>= (unchecked port) _ (Ends-unchecked port) λ f.
            Ends->>= (at_pattern sink graph) _ (Ends-at_pattern sink graph) λ cons.
              Ends->>= (write_connected_to format consumer_port (port_id format prod f) cons) _
                (Ends-write_connected_to consumer_port (port_id format prod f) cons)
                λ written. Ends-ok _

  Ends-check_ports :
      (fuel : ℕ) (prod cons : PatternInstance) (p q : Found) (graph : GraphInstance)
      → Ends (would_connect_to_self format fuel graph prod.instance_id cons)
      → Ends (check_ports format fuel prod p cons q graph)
  unfolding check_ports get_time_domain
  Ends-check_ports fuel prod cons (g, p) (h, q) graph ends =
      Ends->>= (get_time_domain prod p) _
        (Ends-at_index prod.local_to_global_time_domain p.port.time_domain)
        λ d.
          Ends->>= (get_time_domain cons q) _
            (Ends-at_index cons.local_to_global_time_domain q.port.time_domain)
            λ d'.
              Ends-if (eqb_ℤ d d') _ _
                (Ends-if (eqb p.port.datatype q.port.datatype) _ _
                  (Ends->>= (would_connect_to_self format fuel graph prod.instance_id cons) _ ends
                    λ b. Ends-ok _)
                  (Ends-ok _))
                (Ends-ok _)

  Ends-check_source_and_sink :
      (fuel : ℕ) (source producer_port sink consumer_port : String) (graph : GraphInstance)
      → ((prod cons : PatternInstance)
          → find_key sink graph.pattern_instances ≡ some cons
          → Ends (would_connect_to_self format fuel graph prod.instance_id cons))
      → Ends (check_source_and_sink format fuel source producer_port sink consumer_port graph)
  unfolding check_source_and_sink get_producer_port get_consumer_port
  Ends-check_source_and_sink fuel source producer_port sink consumer_port graph ends =
      Ends-if (eqb source sink) _ _ (Ends-ok _) (
        Ends-or_error _ (find_key source graph.pattern_instances) _ λ prod _.
          Ends->>= (get_producer_port format producer_port prod) _
            (Ends-get_port_of _ producer_port prod)
            λ port. Ends-or_error _ port _ λ p _.
              Ends-or_error _ (find_key sink graph.pattern_instances) _ λ cons at.
                Ends->>= (get_consumer_port format consumer_port cons) _
                  (Ends-get_port_of _ consumer_port cons)
                  λ port'.
                    Ends-or_error _ port' _
                      λ q _. Ends-check_ports fuel prod cons p q graph (ends prod cons at))

  Ends-connect :
      (fuel : ℕ) (source producer_port sink consumer_port : String) (graph : GraphInstance)
      → ((prod cons : PatternInstance)
          → find_key sink graph.pattern_instances ≡ some cons
          → Ends (would_connect_to_self format fuel graph prod.instance_id cons))
      → Ends (connect format fuel source producer_port sink consumer_port graph)
  unfolding connect
  Ends-connect fuel source producer_port sink consumer_port graph ends =
      Ends->>= (check_source_and_sink format fuel source producer_port sink consumer_port graph) _
        (Ends-check_source_and_sink fuel source producer_port sink consumer_port graph ends)
        λ check.
          elim check
            as (λ k. Ends (elim k as (λ _. Result GraphInstance) [
              | some error ↦ throws invalid_argument
              | none ↦ set_connection format source producer_port sink consumer_port graph
            ])) [
              | some error ↦ λ e. cc
              | none ↦ Ends-set_connection source producer_port sink consumer_port graph
            ]

  -- On every graph that calls of `addPattern` and `connect` build, the next `connect` ends, whatever
  -- is connected: from some depth on, the search of a loop is not cut off.
  pub connect_ends :
      (nonempty : (group : String) (index : ℕ) (name : String) → format group index name ≢ "")
      (graph : GraphInstance) (source producer_port sink consumer_port : String)
      → Built format graph
      → (depth : ℕ) × ((extra : ℕ)
          → connect format (depth + extra) source producer_port sink consumer_port graph
            ≢ out_of_fuel)
  connect_ends nonempty graph source producer_port sink consumer_port b =
      let (v, rank, ranked) = built-IsRanked format nonempty graph b in
      (
        suc (rank sink),
        λ extra.
            Ends-connect (suc (rank sink) + extra) source producer_port sink consumer_port graph
              (λ prod cons at.
                let m = find_key-mem sink cons graph.pattern_instances at in
                let named = v.named sink cons m in
                let (b, e) =
                  would_connect-total format graph rank v ranked prod.instance_id
                    (suc (rank sink) + extra) sink cons m
                    (subst (λ x. rank x < suc (rank sink) + extra) (sym named) (omega arith)) in
                λ stopped. cc (e, stopped)),
      )
