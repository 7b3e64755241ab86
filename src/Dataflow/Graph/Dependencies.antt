-- ===== src/Dataflow/Graph/Dependencies.antt =====
-- src/traact/dataflow/graph/builder/ComponentGraphBuilder.cpp: the links that the builder makes.
use Prim.Native.String.{String}
use mathlib.Core.List.{Memᴰ}
use mathlib.Core.List.Memᴰ
use traact_core.Prelude.{
  ℕ, ◌≡◌, ◌≢◌, refl, sym, ap, subst, ◌∙◌, ◌⊎◌, ◌↔◌, inl, inr, arith, List, [], ◌∷◌, some,
  Option-cases,
}
use traact_core.Prelude.Int.{ℤ}
use traact_core.Prelude.Maps.{find_key}
use traact_core.Exceptions.{ok, >>=-eq-ok}
use traact_core.Pattern.Build.{ComponentType}
use traact_core.Pattern.Instance.{get_component_type}
use traact_core.Pattern.Graph.{Place}
use traact_core.Dataflow.Graph.{Heap, precede}
use traact_core.Dataflow.Graph.Grows.{
  Grows, Nothing, Either, Grows-none, Grows-precede, Grows-trans, Grows-map,
}
use traact_core.Component.{GraphComponent}
use traact_core.Dataflow.Graph.Components.{at_task, precede_inputs, find_sync_source_start_point}

-- Some element of a list.
abbrev pub Some : {A : Type 0} → (A → Type 0) → List A → Type 0
Some {A} P xs = (a : A) × Memᴰ a xs × P a

abbrev pub All : {A : Type 0} → (A → ℕ → ℕ → Type 0) → List A → ℕ → ℕ → Type 0
All R xs x y = Some (λ a. R a x y) xs

-- A loop that adds the links `P a` inside a time step and `Q a` across, for each element `a`.
module _ {A : Type 0} (P Q : A → ℕ → ℕ → Type 0) where
  All-nil : (R : A → ℕ → ℕ → Type 0) (x y : ℕ) → Nothing x y ↔ All R [] x y
  All-nil R x y = (λ n. absurd n, λ s. absurd (Memᴰ.not-nil s.1))

  All-cons :
      (R : A → ℕ → ℕ → Type 0) (a : A) (xs : List A) (x y : ℕ)
      → Either (R a) (All R xs) x y ↔ All R (a ∷ xs) x y
  All-cons R a xs x y = (
    λ s. elim s [ inl p ↦ (a, Memᴰ.head refl, p) | inr (b, at, p) ↦ (b, Memᴰ.tail at, p) ],
    λ s. elim (Memᴰ.cases_cons s.1) [
      | inl e ↦ inl (subst (λ b. R b x y) e s.2)
      | inr at ↦ inr (s.0, at, s.2)
    ],
  )

  pub loop_nil : {h k : Heap} → h ≡ k → Grows h k (All P []) (All Q [])
  loop_nil {h} e =
      subst (λ m. Grows h m (All P []) (All Q [])) e
        (Grows-map (All-nil P) (All-nil Q) (Grows-none h))

  pub loop_cons :
      {h k m : Heap} (a : A) (xs : List A)
      → Grows h k (P a) (Q a)
      → Grows k m (All P xs) (All Q xs)
      → Grows h m (All P (a ∷ xs)) (All Q (a ∷ xs))
  loop_cons a xs p q = Grows-map (All-cons P a xs) (All-cons Q a xs) (Grows-trans p q)

-- A loop that adds no links across.
abbrev pub None : {A : Type 0} → A → ℕ → ℕ → Type 0
None a = Nothing

All-None : {A : Type 0} (xs : List A) (x y : ℕ) → Some (λ (a : A). Nothing x y) xs ↔ Nothing x y
All-None xs x y = (λ s. absurd s.2, λ n. absurd n)

pub at_task-find_key :
    (id : String) (tasks : List (String × ℕ)) (t : ℕ)
    → (at_task id tasks ≡ ok t) ↔ (find_key id tasks ≡ some t)
unfolding at_task
at_task-find_key id tasks t = (
  λ e. elim (Option-cases (find_key id tasks)) [
    | inl n ↦ ground (arith, n)
    | inr (s, h) ↦ ground (arith, h)
  ],
  λ e. rw (e, at_task),
)

-- The task `current` leads to that of the place.
abbrev pub Reads : List (String × ℕ) → ℕ → Place → ℕ → ℕ → Type 0
Reads tasks current place x y = (x ≡ current) × (find_key place.0.instance_id tasks ≡ some y)

pub precede_inputs-Grows :
    (tasks : List (String × ℕ)) (current : ℕ) (places : List Place) (h k : Heap)
    → precede_inputs tasks current places h ≡ ok k
    → Grows h k (All (Reads tasks current) places) (All None places)
unfolding precede_inputs
precede_inputs-Grows tasks current [] h k e = loop_nil (Reads tasks current) None (cc)
precede_inputs-Grows tasks current ((d, f) ∷ places) h k e =
    let (consumer, at, rest) = >>=-eq-ok (at_task d.instance_id tasks) _ e in
    let named = (at_task-find_key d.instance_id tasks consumer).0 at in
    loop_cons (Reads tasks current) None (d, f) places
      (Grows-map (λ x y. (λ j. (j.0, named ∙ ap some (sym j.1)), λ r. (r.0, cc)))
        (λ x y. (λ n. n, λ n. n)) (Grows-precede current consumer h))
      (precede_inputs-Grows tasks current places (precede current consumer h) k rest)

-- The first component of the list with an asynchronous source.
pub data FirstAsync (td : ℤ) : List GraphComponent → GraphComponent → Type 0 where
  here :
      (c : GraphComponent) (cs : List GraphComponent)
      → get_component_type td c.pattern ≡ ok ComponentType.async_source
      → FirstAsync td (c ∷ cs) c
  later :
      (c s : GraphComponent) (cs : List GraphComponent) (type : ComponentType)
      → get_component_type td c.pattern ≡ ok type
      → type ≢ ComponentType.async_source
      → FirstAsync td cs s
      → FirstAsync td (c ∷ cs) s

-- The task of that component.
abbrev pub StartPoint : ℤ → List (String × ℕ) → List GraphComponent → ℕ → Type 0
StartPoint td tasks cs x =
    (s : GraphComponent) × FirstAsync td cs s × (find_key s.pattern.instance_id tasks ≡ some x)

ComponentType-cases :
    (type : ComponentType)
    → (type ≡ ComponentType.async_source) ⊎ (type ≢ ComponentType.async_source)
ComponentType-cases ComponentType.invalid = inr (λ e. cc)
ComponentType-cases ComponentType.async_source = inl refl
ComponentType-cases ComponentType.internal_sync_source = inr (λ e. cc)
ComponentType-cases ComponentType.sync_source = inr (λ e. cc)
ComponentType-cases ComponentType.sync_functional = inr (λ e. cc)
ComponentType-cases ComponentType.async_functional = inr (λ e. cc)
ComponentType-cases ComponentType.sync_sink = inr (λ e. cc)
ComponentType-cases ComponentType.async_sink = inr (λ e. cc)

-- One round of the search.
search_round :
    (td : ℤ) (tasks : List (String × ℕ)) (c : GraphComponent) (cs : List GraphComponent)
    (type : ComponentType)
    → get_component_type td c.pattern ≡ ok type
    → type ≢ ComponentType.async_source
    → find_sync_source_start_point td tasks (c ∷ cs) ≡ find_sync_source_start_point td tasks cs
unfolding find_sync_source_start_point
search_round td tasks c cs ComponentType.async_source t n = absurd (n refl)
search_round td tasks c cs ComponentType.invalid t n = ground (arith, t)
search_round td tasks c cs ComponentType.internal_sync_source t n = ground (arith, t)
search_round td tasks c cs ComponentType.sync_source t n = ground (arith, t)
search_round td tasks c cs ComponentType.sync_functional t n = ground (arith, t)
search_round td tasks c cs ComponentType.async_functional t n = ground (arith, t)
search_round td tasks c cs ComponentType.sync_sink t n = ground (arith, t)
search_round td tasks c cs ComponentType.async_sink t n = ground (arith, t)

search_hit :
    (td : ℤ) (tasks : List (String × ℕ)) (c : GraphComponent) (cs : List GraphComponent)
    → get_component_type td c.pattern ≡ ok ComponentType.async_source
    → find_sync_source_start_point td tasks (c ∷ cs) ≡ at_task c.pattern.instance_id tasks
unfolding find_sync_source_start_point
search_hit td tasks c cs t = ground (arith, t)

pub find_sync_source_start_point-StartPoint :
    (td : ℤ) (tasks : List (String × ℕ)) (cs : List GraphComponent) (x : ℕ)
    → find_sync_source_start_point td tasks cs ≡ ok x
    → StartPoint td tasks cs x
unfolding find_sync_source_start_point
find_sync_source_start_point-StartPoint td tasks [] x e = cc
find_sync_source_start_point-StartPoint td tasks (c ∷ cs) x e =
    let (type, t, _) = >>=-eq-ok (get_component_type td c.pattern) _ e in
    elim (ComponentType-cases type) [
      | inl a ↦
          let t' = t ∙ ap ok a in
          (
            c,
            FirstAsync.here c cs t',
            (at_task-find_key c.pattern.instance_id tasks x).0
                (sym (search_hit td tasks c cs t') ∙ e),
          )
      | inr n ↦
          let (s, first, named) =
            find_sync_source_start_point-StartPoint td tasks cs x
              (sym (search_round td tasks c cs type t n) ∙ e) in
          (s, FirstAsync.later c s cs type t n first, named)
    ]

pub FirstAsync-find_sync_source_start_point :
    {td : ℤ} {cs : List GraphComponent} {s : GraphComponent} (tasks : List (String × ℕ)) (x : ℕ)
    → FirstAsync td cs s
    → find_key s.pattern.instance_id tasks ≡ some x
    → find_sync_source_start_point td tasks cs ≡ ok x
FirstAsync-find_sync_source_start_point {td} tasks x (FirstAsync.here c cs t) named =
    search_hit td tasks c cs t ∙ (at_task-find_key c.pattern.instance_id tasks x).1 named
FirstAsync-find_sync_source_start_point {td} tasks x (FirstAsync.later c s cs type t n first)
      named =
    search_round td tasks c cs type t n
    ∙ FirstAsync-find_sync_source_start_point tasks x first named
