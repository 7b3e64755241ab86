-- ===== src/Pattern/Graph/Connection.antt =====
-- src/traact/pattern/instance/GraphInstance.cpp: what `connect` does when it succeeds.
use mathlib.Core.List.{Memᴰ}
use traact_core.Prelude.{
  ℕ, ◌≡◌, ◌≢◌, refl, sym, ap, ◌∙◌, ◌⊎◌, inl, inr, List, [], false, Option, none, some, String, eqb,
  Bool-cases, Option-cases, subst,
}
use traact_core.Prelude.Int.{eqb_ℤ}
use traact_core.Prelude.Maps.{
  find_key, store_key, find_key-mem, mem-store_key, mem-store_key-kept, Distinct,
  Distinct-store_key,
}
use traact_core.Exceptions.{Result, ok, throws, invalid_argument, >>=-eq-ok}
use traact_core.Pattern.Instance.{
  PortId, PatternInstance, Found, port_id, get_producer_port, get_consumer_port, get_time_domain,
  unchecked,
}
use traact_core.Pattern.Graph.{GraphInstance, would_connect_to_self, at_pattern}
use traact_core.Pattern.Graph.Connect.{
  ConnectionError, or_error, check_ports, check_source_and_sink, set_connection, connect,
  write_connected_to,
}
use traact_core.Pattern.Graph.Invariant.{IsGraph}
use traact_core.Pattern.Graph.Written.{write_connected_to-some}
use traact_core.Pattern.Graph.Rewritten.{FromGroups, HasDefault}

abbrev pub patterns_of : Result GraphInstance → List (String × PatternInstance)
patterns_of (ok graph) = graph.pattern_instances
patterns_of _ = []

pub or_error-none {ℓ} :
    {A : Type ℓ} (e : ConnectionError) (o : Option A) (f : A → Result (Option ConnectionError))
    → or_error e o f ≡ ok none
    → (a : A) × (o ≡ some a) × (f a ≡ ok none)
or_error-none e none f h = cc
or_error-none e (some a) f h = (a, refl, h)

pub ok_some-ne-none {ℓ} : {A : Type ℓ} (a : A) → ¬ (ok (some a) ≡ ok none)
ok_some-ne-none a h = cc

pub ok-ne-throws {ℓ} : {A : Type ℓ} (a : A) → ¬ (throws invalid_argument ≡ ok a)
ok-ne-throws a h = cc

pub at_pattern-find :
    (key : String) (graph : GraphInstance) (c : PatternInstance)
    → find_key key graph.pattern_instances ≡ some c
    → at_pattern key graph ≡ ok c
unfolding at_pattern
at_pattern-find key graph c e = rw (e, at_pattern) refl

module _ (format : String → ℕ → String → String) where
  pub check_ports-none :
      (fuel : ℕ) (prod cons : PatternInstance) (p q : Found) (graph : GraphInstance)
      → check_ports format fuel prod p cons q graph ≡ ok none
      → would_connect_to_self format fuel graph prod.instance_id cons ≡ ok false
  unfolding check_ports
  check_ports-none fuel prod cons (g, p) (h, q) graph e =
      let (d, _, e₁) = >>=-eq-ok (get_time_domain prod p) _ e in
      let (d', _, e₂) = >>=-eq-ok (get_time_domain cons q) _ e₁ in
      elim (Bool-cases (eqb_ℤ d d')) [
        | inr other ↦ absurd (ok_some-ne-none _ (rw other at e₂))
        | inl same ↦ elim (Bool-cases (eqb p.port.datatype q.port.datatype)) [
          | inr other' ↦ absurd (ok_some-ne-none _ (rw (same, other') at e₂))
          | inl same' ↦
              let (b, found, e₃) =
                >>=-eq-ok (would_connect_to_self format fuel graph prod.instance_id cons) _
                  (rw (same, same') at e₂) in
              elim (Bool-cases b) [
                | inl yes' ↦ absurd (ok_some-ne-none _ (rw yes' at e₃))
                | inr no' ↦ found ∙ ap ok no'
              ]
        ]
      ]

  -- What is known once `checkSourceAndSinkConnectionError` has found nothing wrong.
  pub check_source_and_sink-none :
      (fuel : ℕ) (source producer_port sink consumer_port : String) (graph : GraphInstance)
      → check_source_and_sink format fuel source producer_port sink consumer_port graph ≡ ok none
      → (prod : PatternInstance) × (cons : PatternInstance) × (find_key source
            graph.pattern_instances
          ≡ some prod)
        × (find_key sink graph.pattern_instances ≡ some cons)
        × (would_connect_to_self format fuel graph prod.instance_id cons ≡ ok false)
  unfolding check_source_and_sink
  check_source_and_sink-none fuel source producer_port sink consumer_port graph e =
      elim (Bool-cases (eqb source sink)) [
        | inl same ↦ absurd (ok_some-ne-none _ (rw same at e))
        | inr other ↦
            let (prod, at, e₁) =
              or_error-none _ (find_key source graph.pattern_instances) _ (rw other at e) in
            let (port, _, e₂) = >>=-eq-ok (get_producer_port format producer_port prod) _ e₁ in
            let (p, _, e₃) = or_error-none _ port _ e₂ in
            let (cons, at', e₄) = or_error-none _ (find_key sink graph.pattern_instances) _ e₃ in
            let (port', _, e₅) = >>=-eq-ok (get_consumer_port format consumer_port cons) _ e₄ in
            let (q, _, e₆) = or_error-none _ port' _ e₅ in
            (prod, cons, at, at', check_ports-none fuel prod cons p q graph e₆)
      ]

  -- What `connect` writes.
  pub set_connection-ok :
      (source producer_port sink consumer_port : String) (graph graph' : GraphInstance)
      (prod cons : PatternInstance)
      → find_key source graph.pattern_instances ≡ some prod
      → find_key sink graph.pattern_instances ≡ some cons
      → set_connection format source producer_port sink consumer_port graph ≡ ok graph'
      → (f : Found) × (written : PatternInstance) × (write_connected_to format consumer_port
            (port_id format prod f)
            cons
          ≡ ok written)
        × (graph'.pattern_instances ≡ store_key sink written graph.pattern_instances)
  unfolding set_connection
  set_connection-ok source producer_port sink consumer_port graph graph' prod cons at at' e =
      let e₀ = rw (at_pattern-find source graph prod at) at e in
      let (port, _, e₁) = >>=-eq-ok (get_producer_port format producer_port prod) _ e₀ in
      let (f, _, e₂) = >>=-eq-ok (unchecked port) _ e₁ in
      let e₃ = rw (at_pattern-find sink graph cons at') at e₂ in
      let (written, w, e₄) =
        >>=-eq-ok (write_connected_to format consumer_port (port_id format prod f) cons) _ e₃ in
      (f, written, w, ap patterns_of (sym e₄))

  -- A pattern of the graph after the write, and the one that it was.
  abbrev pub Origin : PortId → GraphInstance → String → PatternInstance → Type 0
  Origin id graph key c' =
      (c : PatternInstance) × Memᴰ (key, c) graph.pattern_instances
      × (c'.instance_id ≡ c.instance_id)
      × FromGroups id c.port_groups c'.port_groups
      × HasDefault c'.port_groups

  -- The facts about a call of `connect` that returns.
  pub record Connection (graph graph' : GraphInstance) (fuel : ℕ) : Type 0 where
    pub prod : PatternInstance
    pub cons : PatternInstance
    pub prod_key : String
    pub cons_key : String
    pub f : Found
    pub prod_at : Memᴰ (prod_key, prod) graph.pattern_instances
    pub cons_at : Memᴰ (cons_key, cons) graph.pattern_instances
    pub no_loop : would_connect_to_self format fuel graph prod.instance_id cons ≡ ok false
    pub distinct : Distinct graph'.pattern_instances
    pub kept :
        (key : String) (c : PatternInstance)
        → Memᴰ (key, c) graph.pattern_instances
        → (c' : PatternInstance) × Memᴰ (key, c') graph'.pattern_instances
    pub origin :
        (key : String) (c' : PatternInstance)
        → Memᴰ (key, c') graph'.pattern_instances
        → (key ≢ cons_key) × Memᴰ (key, c') graph.pattern_instances
          ⊎ (key ≡ cons_key) × Origin (port_id format prod f) graph key c'

  pub connect-Connection :
      (fuel : ℕ) (source producer_port sink consumer_port : String) (graph graph' : GraphInstance)
      → IsGraph format graph
      → connect format fuel source producer_port sink consumer_port graph ≡ ok graph'
      → Connection graph graph' fuel
  unfolding connect
  connect-Connection fuel source producer_port sink consumer_port graph graph' v e =
      let (check, checked, e₁) =
        >>=-eq-ok (check_source_and_sink format fuel source producer_port sink consumer_port graph)
          _ e in
      elim (Option-cases check) [
        | inr (error, bad) ↦ absurd (ok-ne-throws _ (rw bad at e₁))
        | inl good ↦
            let (prod, cons, at, at', no_loop) =
              check_source_and_sink-none fuel source producer_port sink consumer_port graph
                (checked ∙ ap ok good) in
            let (f, written, w, patterns) =
              set_connection-ok source producer_port sink consumer_port graph graph' prod cons at
                at' (rw good at e₁) in
            let cons_at = find_key-mem sink cons graph.pattern_instances at' in
            let shape = v.instances sink cons cons_at in
            let facts =
              write_connected_to-some (port_id format prod f) format consumer_port cons written
                shape.first shape.others shape.rest shape.has_default w in
            record {
              prod = prod;
              cons = cons;
              prod_key = source;
              cons_key = sink;
              f = f;
              prod_at = find_key-mem source prod graph.pattern_instances at;
              cons_at = cons_at;
              no_loop = no_loop;
              distinct =
                  subst Distinct (sym patterns)
                    (Distinct-store_key sink written graph.pattern_instances v.distinct);
              kept = λ key c m.
                  let (c', m') = mem-store_key-kept sink key written c graph.pattern_instances m in
                  (c', subst (Memᴰ (key, c')) (sym patterns) m');
              origin = λ key c' m.
                  elim (mem-store_key sink key written c' graph.pattern_instances v.distinct
                    (subst (Memᴰ (key, c')) patterns m)) [
                      | inr old ↦ inl old
                      | inl (named, same) ↦
                          let (same_id, from, default) =
                            subst
                              (λ x.
                                (x.instance_id ≡ cons.instance_id)
                                × FromGroups (port_id format prod f) cons.port_groups x.port_groups
                                × HasDefault x.port_groups)
                              (sym same) facts in
                          inr (
                            named,
                            (
                              cons,
                              subst (λ k. Memᴰ (k, cons) graph.pattern_instances) (sym named)
                                  cons_at,
                              same_id,
                              from,
                              default,
                            ),
                          )
                    ];
            }
      ]
