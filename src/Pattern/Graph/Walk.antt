-- ===== src/Pattern/Graph/Walk.antt =====
-- The walk of `connectedToPtr` in src/traact/pattern/instance/GraphInstance.cpp: it comes to exactly
-- the ports that pass its test.
use mathlib.Core.List.{Memᴰ}
use mathlib.Core.List.Memᴰ
use traact_core.Prelude.{
  ◌≡◌, refl, sym, ap, ◌∙◌, inl, inr, List, [], ◌∷◌, ◌++◌, Bool, true, String, Bool-cases, subst,
}
use traact_core.Exceptions.{Result, ok}
use traact_core.Pattern.Port.{PortType}
use traact_core.Pattern.Instance.{PortInstance, PortGroupInstance, PatternInstance, get_port_list}
use traact_core.Pattern.Graph.{Place, walk_ports, walk_instances, walk_groups, walk_patterns}
use traact_core.Pattern.Graph.Search.{IsPort}

module _ (keeps : Place → Bool) (type : PortType) (select : PortGroupInstance → List PortInstance)
    (reads : (g : PortGroupInstance) → get_port_list type g ≡ ok (select g)) where
  walk_ports-mem :
      (c : PatternInstance) (g : PortGroupInstance) (ps : List PortInstance) (p : PortInstance)
      → Memᴰ p ps
      → keeps (c, (g, p)) ≡ true
      → Memᴰ (c, (g, p)) (walk_ports keeps type c g ps)
  unfolding walk_ports
  walk_ports-mem c g [] p m k = absurd (Memᴰ.not-nil m)
  walk_ports-mem c g (x ∷ ps) p m k = elim (Bool-cases (keeps (c, (g, x)))) [
    | inl e ↦ rw e (elim (Memᴰ.cases_cons m) [
      | inl same ↦ Memᴰ.head (ap (λ y. (c, (g, y))) same)
      | inr later ↦ Memᴰ.tail (walk_ports-mem c g ps p later k)
    ])
    | inr e ↦ rw e (elim (Memᴰ.cases_cons m) [
      | inl same ↦ absurd (let k' = subst (λ y. keeps (c, (g, y)) ≡ true) same k in cc (k', e))
      | inr later ↦ walk_ports-mem c g ps p later k
    ])
  ]

  -- Where a place that was found stands.
  abbrev Stands : PatternInstance → List (List PortGroupInstance) → Place → Type 0
  Stands c groups place =
      (place.0 ≡ c) × IsPort select groups place.1.0 place.1.1 × (keeps place ≡ true)

  walk_ports-only :
      (c : PatternInstance) (g : PortGroupInstance) (ps : List PortInstance) (place : Place)
      → Memᴰ place (walk_ports keeps type c g ps)
      → (place.0 ≡ c) × (place.1.0 ≡ g) × Memᴰ place.1.1 ps × (keeps place ≡ true)
  unfolding walk_ports
  walk_ports-only c g [] place m = absurd (Memᴰ.not-nil m)
  walk_ports-only c g (x ∷ ps) place m = elim (Bool-cases (keeps (c, (g, x)))) [
    | inl e ↦ elim (Memᴰ.cases_cons (rw e at m)) [
      | inl same ↦ (
        ap (λ q. q.0) same,
        ap (λ q. q.1.0) same,
        Memᴰ.head (ap (λ q. q.1.1) same),
        ap keeps same ∙ e,
      )
      | inr later ↦
          let (a, b, at, k) = walk_ports-only c g ps place later in (a, b, Memᴰ.tail at, k)
    ]
    | inr e ↦
        let (a, b, at, k) = walk_ports-only c g ps place (rw e at m) in (a, b, Memᴰ.tail at, k)
  ]

  -- What a walk over the instances of `c` in `groups` gives.
  abbrev Walked : PatternInstance → List (List PortGroupInstance) → Result (List Place) → Type 0
  Walked c groups r =
      (places : List Place) × (r ≡ ok places)
      × ((g : PortGroupInstance) (p : PortInstance)
          → IsPort select groups g p
          → keeps (c, (g, p)) ≡ true
          → Memᴰ (c, (g, p)) places)
      × ((place : Place) → Memᴰ place places → Stands c groups place)

  walk_instances-walked :
      (c : PatternInstance) (gs : List PortGroupInstance)
      → (places : List Place) × (walk_instances keeps type c gs ≡ ok places)
        × ((g : PortGroupInstance) (p : PortInstance)
            → Memᴰ g gs
            → Memᴰ p (select g)
            → keeps (c, (g, p)) ≡ true
            → Memᴰ (c, (g, p)) places)
        × ((place : Place)
            → Memᴰ place places
            → (place.0 ≡ c)
              × Memᴰ place.1.0 gs
              × Memᴰ place.1.1 (select place.1.0)
              × (keeps place ≡ true))
  unfolding walk_instances
  walk_instances-walked c [] =
      ([], refl, λ g p m k e. absurd (Memᴰ.not-nil m), λ place m. absurd (Memᴰ.not-nil m))
  walk_instances-walked c (x ∷ gs) =
      let (places, e, all, only) = walk_instances-walked c gs in
      let here = walk_ports keeps type c x (select x) in
      (
        here ++ places,
        rw (reads x, e) refl,
        λ g p m k t. elim (Memᴰ.cases_cons m) [
          | inl same ↦ Memᴰ.append_left places (
              subst (λ y. Memᴰ (c, (g, p)) (walk_ports keeps type c y (select y))) same
                (walk_ports-mem c g (select g) p k t))
          | inr later ↦ Memᴰ.append_right here (all g p later k t)
        ],
        λ place m. elim (Memᴰ.append_cases here m) [
          | inl first ↦
              let (a, b, at, t) = walk_ports-only c x (select x) place first in
              (a, Memᴰ.head b, subst (λ y. Memᴰ place.1.1 (select y)) (sym b) at, t)
          | inr later ↦ let (a, b, at, t) = only place later in (a, Memᴰ.tail b, at, t)
        ],
      )

  walk_groups-Walked :
      (c : PatternInstance) (groups : List (List PortGroupInstance))
      → Walked c groups (walk_groups keeps type c groups)
  unfolding walk_groups
  walk_groups-Walked c [] =
      ([], refl, λ g p v k. absurd (Memᴰ.not-nil v.in_groups), λ place m. absurd (Memᴰ.not-nil m))
  walk_groups-Walked c (gs ∷ groups) =
      let (here, e, all, only) = walk_instances-walked c gs in
      let (there, e', all', only') = walk_groups-Walked c groups in
      (
        here ++ there,
        rw (e, e') refl,
        λ g p v k. elim (Memᴰ.cases_cons v.in_groups) [
          | inl same ↦
              Memᴰ.append_left there (all g p (subst (Memᴰ g) same v.in_group) v.in_ports k)
          | inr later ↦ Memᴰ.append_right here (
              all' g p
                (record {
                  group = v.group;
                  in_groups = later;
                  in_group = v.in_group;
                  in_ports = v.in_ports;
                })
                k)
        ],
        λ place m. elim (Memᴰ.append_cases here m) [
          | inl first ↦
              let (a, at, port, k) = only place first in
              (
                a,
                record { group = gs; in_groups = Memᴰ.head refl; in_group = at; in_ports = port },
                k,
              )
          | inr later ↦
              let (a, v, k) = only' place later in
              (
                a,
                record {
                  group = v.group;
                  in_groups = Memᴰ.tail v.in_groups;
                  in_group = v.in_group;
                  in_ports = v.in_ports;
                },
                k,
              )
        ],
      )

  -- The walk over all patterns returns exactly the ports that pass the test.
  pub walk_patterns-walked :
      (m : List (String × PatternInstance))
      → (places : List Place) × (walk_patterns keeps type m ≡ ok places)
        × ((key : String) (c : PatternInstance) (g : PortGroupInstance) (p : PortInstance)
            → Memᴰ (key, c) m
            → IsPort select c.port_groups g p
            → keeps (c, (g, p)) ≡ true
            → Memᴰ (c, (g, p)) places)
        × ((place : Place)
            → Memᴰ place places
            → (key : String) × Memᴰ (key, place.0) m
              × IsPort select place.0.port_groups place.1.0 place.1.1
              × (keeps place ≡ true))
  unfolding walk_patterns
  walk_patterns-walked [] =
      ([], refl, λ key c g p n v k. absurd (Memᴰ.not-nil n), λ place n. absurd (Memᴰ.not-nil n))
  walk_patterns-walked ((j, d) ∷ m) =
      let (here, e, all, only) = walk_groups-Walked d d.port_groups in
      let (there, e', all', only') = walk_patterns-walked m in
      (
        here ++ there,
        rw (e, e') refl,
        λ key c g p n v k. elim (Memᴰ.cases_cons n) [
          | inl same ↦
              let pattern : c ≡ d = ap (λ q. q.1) same in
              Memᴰ.append_left there (
                subst (λ y. Memᴰ (y, (g, p)) here) (sym pattern)
                  (all g p (subst (λ y. IsPort select y.port_groups g p) pattern v)
                    (subst (λ y. keeps (y, (g, p)) ≡ true) pattern k)))
          | inr later ↦ Memᴰ.append_right here (all' key c g p later v k)
        ],
        λ place n. elim (Memᴰ.append_cases here n) [
          | inl first ↦
              let (a, v, k) = only place first in
              (
                j,
                Memᴰ.head (ap (λ y. (j, y)) a),
                subst (λ y. IsPort select y.port_groups place.1.0 place.1.1) (sym a) v,
                k,
              )
          | inr later ↦ let (key, at, v, k) = only' place later in (key, Memᴰ.tail at, v, k)
        ],
      )
