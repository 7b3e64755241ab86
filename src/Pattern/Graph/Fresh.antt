-- ===== src/Pattern/Graph/Fresh.antt =====
-- src/traact/pattern/instance/GraphInstance.cpp: the pattern that `addPattern` adds, and the
-- graphs that calls of `addPattern` and `connect` build.
use mathlib.Core.List.{Memᴰ}
use mathlib.Core.List.Memᴰ
use traact_core.Prelude.{
  ℕ, zero, suc, ◌≡◌, ◌≢◌, refl, sym, ap, ◌⊎◌, inl, inr, List, [], ◌∷◌, none, String, Option-cases,
  subst, map, replicate, length,
}
use traact_core.Prelude.Int.{ℤ}
use traact_core.Prelude.Maps.{find_key, emplace}
use traact_core.Exceptions.{Result, ok, >>=-eq-ok}
use traact_core.Pattern.Port.{Port, PortGroup, PortType}
use traact_core.Pattern.Build.{Pattern}
use traact_core.Pattern.Instance.{
  PortInstance, PortGroupInstance, PatternInstance, new_group_instance, new_pattern_instance,
}
use traact_core.Pattern.Graph.{GraphInstance, new_graph, time_domains, add_pattern}
use traact_core.Pattern.Graph.Connect.{connect}
use traact_core.Pattern.Graph.Search.{IsPort}

pub mem-map {ℓ κ} :
    {A : Type ℓ} {B : Type κ} (f : A → B) (xs : List A) (y : B)
    → Memᴰ y (map f xs)
    → (x : A) × Memᴰ x xs × (y ≡ f x)
mem-map f [] y m = absurd (Memᴰ.not-nil m)
mem-map f (x ∷ xs) y m = elim (Memᴰ.cases_cons m) [
  | inl same ↦ (x, Memᴰ.head refl, same)
  | inr later ↦ let (z, at, e) = mem-map f xs y later in (z, Memᴰ.tail at, e)
]

pub mem-replicate {ℓ} : {A : Type ℓ} (n : ℕ) (x y : A) → Memᴰ y (replicate n x) → y ≡ x
mem-replicate zero x y m = absurd (Memᴰ.not-nil m)
mem-replicate (suc n) x y m = elim (Memᴰ.cases_cons m) [
  | inl same ↦ same
  | inr later ↦ mem-replicate n x y later
]

-- The ports of a new instance are those of the pattern's first group.
unfoldable pub fresh_groups : PortGroup → ℕ → List (List PortGroupInstance)
unfolding new_group_instance
fresh_groups g n = (new_group_instance g 0 ∷ []) ∷ replicate n []

pub fresh_port :
    (select : PortGroupInstance → List PortInstance) (g : PortGroup) (n : ℕ) (h : PortGroupInstance)
    (p : PortInstance)
    → IsPort select (fresh_groups g n) h p
    → (h ≡ new_group_instance g 0) × Memᴰ p (select (new_group_instance g 0))
unfolding fresh_groups
fresh_port select g n h p v = elim (Memᴰ.cases_cons v.in_groups) [
  | inl first ↦
      let same = Memᴰ.eq_of_singleton (subst (Memᴰ h) first v.in_group) in
      (same, subst (λ x. Memᴰ p (select x)) same v.in_ports)
  | inr later ↦ absurd (Memᴰ.not-nil (subst (Memᴰ h) (mem-replicate n [] v.group later) v.in_group))
]

abbrev pub instance_id_of : Result PatternInstance → String
instance_id_of (ok c) = c.instance_id
instance_id_of _ = ""

abbrev pub groups_of : Result PatternInstance → List (List PortGroupInstance)
groups_of (ok c) = c.port_groups
groups_of _ = []

abbrev pub patterns_of : Result GraphInstance → List (String × PatternInstance)
patterns_of (ok graph) = graph.pattern_instances
patterns_of _ = []

module _ (format : String → ℕ → String → String) where
  -- The output ports of the default group are outputs, and none is called like the full name of one.
  pub record IsPlain (pattern : Pattern) : Type 0 where
    pub typed :
        (g : PortGroup) (gs : List PortGroup) (p : Port)
        → pattern.port_groups ≡ g ∷ gs
        → Memᴰ p g.producer_ports
        → p.port_type ≡ PortType.producer
    pub plain :
        (g : PortGroup) (gs : List PortGroup) (p q : Port)
        → pattern.port_groups ≡ g ∷ gs
        → Memᴰ p g.producer_ports
        → Memᴰ q g.producer_ports
        → p.name ≢ format g.name 0 q.name

  -- The graphs that can be built, with the calls that do not throw.
  pub data Built : GraphInstance → Type 0 where
    empty : (name : String) → Built (new_graph name)
    added :
        {graph graph' : GraphInstance}
        → Built graph
        → (id : String) (pattern : Pattern) (time_domain : ℤ) → IsPlain pattern
        → add_pattern id pattern time_domain graph ≡ ok graph'
        → Built graph'
    connected :
        {graph graph' : GraphInstance}
        → Built graph
        → (fuel : ℕ) (source producer_port sink consumer_port : String)
        → connect format fuel source producer_port sink consumer_port graph ≡ ok graph'
        → Built graph'

  -- A pattern that `addPattern` adds.
  pub record IsFresh (id : String) (pattern : Pattern) (c : PatternInstance) : Type 0 where
    pub fresh_id : c.instance_id ≡ id
    pub first : PortGroup
    pub others : List PortGroup
    pub shape : pattern.port_groups ≡ first ∷ others
    pub groups : c.port_groups ≡ fresh_groups first (length others)

  pub List-cases {ℓ} :
      {A : Type ℓ} (xs : List A) → (xs ≡ []) ⊎ (x : A) × (rest : List A) × (xs ≡ x ∷ rest)
  List-cases [] = inl refl
  List-cases (x ∷ xs) = inr (x, xs, refl)

  pub new_pattern_instance-IsFresh :
      (id : String) (pattern : Pattern) (c : PatternInstance) (domains : List ℤ)
      → new_pattern_instance id pattern ≡ ok c
      → IsFresh id pattern (record c { local_to_global_time_domain = domains })
  unfolding new_pattern_instance fresh_groups
  new_pattern_instance-IsFresh id pattern c domains e = elim (List-cases pattern.port_groups) [
    | inl none' ↦ absurd (let e' = rw (none', new_pattern_instance) at e in cc e')
    | inr (g, gs, shape) ↦
        let e' = rw (shape, new_pattern_instance) at e in
        record {
          fresh_id = ap instance_id_of (sym e');
          first = g;
          others = gs;
          shape = shape;
          groups = ap groups_of (sym e');
        }
  ]

  pub add_pattern-ok :
      (id : String) (pattern : Pattern) (time_domain : ℤ) (graph graph' : GraphInstance)
      → add_pattern id pattern time_domain graph ≡ ok graph'
      → (c : PatternInstance) × (find_key id graph.pattern_instances ≡ none)
        × IsFresh id pattern c
        × (graph'.pattern_instances ≡ emplace id c graph.pattern_instances)
  unfolding add_pattern
  add_pattern-ok id pattern time_domain graph graph' e =
      elim (Option-cases (find_key id graph.pattern_instances)) [
        | inr (old, hit) ↦ absurd (let e' = rw (hit, add_pattern) at e in cc e')
        | inl fresh ↦
            let (c, made, e₁) =
              >>=-eq-ok (new_pattern_instance id pattern) _ (rw (fresh, add_pattern) at e) in
            let (domains, _, e₂) =
              >>=-eq-ok (time_domains (length pattern.concurrency) time_domain) _ e₁ in
            (
              record c { local_to_global_time_domain = domains },
              fresh,
              new_pattern_instance-IsFresh id pattern c domains made,
              ap patterns_of (sym e₂),
            )
      ]
