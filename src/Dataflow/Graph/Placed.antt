-- ===== src/Dataflow/Graph/Placed.antt =====
-- src/traact/dataflow/graph/builder/ModuleGraphBuilder.cpp: the task graph with the tasks of modules.
use Prim.Native.String.{String}
use mathlib.Core.List.{Memᴰ}
use mathlib.Core.List.Memᴰ
use traact_core.Prelude.{
  ℕ, ◌<◌, ◌≡◌, refl, sym, ap, subst, ◌∙◌, ◌⊎◌, inl, inr, arith, Bool, true, false, List, [], ◌∷◌,
  some, Option-cases,
}
use traact_core.Prelude.Maps.{find_key}
use traact_core.Exceptions.{ok}
use traact_core.Dataflow.Graph.{Heap, TaskKind, TraactGraph}
use traact_core.Dataflow.Graph.Links.{links}
use traact_core.Dataflow.Graph.Modules.{
  ModuleTaskData, is_empty, ModuleEnds, link_module, make_ends, create_module_task,
  create_tasks_and_dependencies,
}
use traact_core.Dataflow.Graph.Surround.{Linked-kind, Surrounds}
use traact_core.Dataflow.Graph.Chosen.{
  Extends, Extends-refl, Extends-trans, Extends-Linked, IsChosen, make_ends-IsChosen,
  link_module-Linked, link_module-begin, link_module-end,
}

-- Where the tasks of a module stand when the builder returns: `first` leads to each component that
-- the module's task `last` waits for, and `last` to what that component led to before; and `last` is
-- among its own successors. The tasks and the links that were there stay.
pub record IsPlaced (components : ModuleTaskData) (g m : TraactGraph) : Type 0 where
  pub first : ℕ
  pub last : ℕ
  pub extends : Extends g m
  pub begun : first < m.next
  pub there : last < m.next
  pub node : (m.heap last).kind ≡ TaskKind.module_task
  pub begins :
      (sub : ℕ)
      → Memᴰ sub components.begin_components
      → sub < g.next
      → Surrounds first last sub g.heap m.heap
  pub itself :
      (sub : ℕ)
      → Memᴰ sub components.begin_components ⊎ Memᴰ sub components.end_components
      → links m.heap last last ≡ true

is_empty-not : (sub : ℕ) (xs : List ℕ) → Memᴰ sub xs → is_empty xs ≡ false
is_empty-not sub [] at = absurd (Memᴰ.not-nil at)
is_empty-not sub (x ∷ xs) at = refl

empty_or_some : (xs : List ℕ) → (is_empty xs ≡ true) ⊎ (x : ℕ) × Memᴰ x xs
empty_or_some [] = inl refl
empty_or_some (x ∷ xs) = inr (x, Memᴰ.head refl)

-- What was linked before the tasks of the module were made.
Surrounds-Extends :
    {first last sub : ℕ} {g k : TraactGraph} {new : Heap}
    → Extends g k
    → sub < g.next
    → Surrounds first last sub k.heap new
    → Surrounds first last sub g.heap new
Surrounds-Extends {sub = sub} x i s = record {
  enters = s.enters;
  leaves = s.leaves;
  goes_on = λ t l. s.goes_on t (x.kept sub t i l);
  itself = s.itself;
}

IsPlaced-before :
    {components : ModuleTaskData} {g k m : TraactGraph}
    → Extends g k
    → IsPlaced components k m
    → IsPlaced components g m
IsPlaced-before x p = record {
  first = p.first;
  last = p.last;
  extends = Extends-trans x p.extends;
  begun = p.begun;
  there = p.there;
  node = p.node;
  begins = λ sub at i. let a = x.grows in Surrounds-Extends x i (p.begins sub at (omega arith));
  itself = p.itself;
}

IsPlaced-after :
    {components : ModuleTaskData} {g k m : TraactGraph}
    → IsPlaced components g k
    → Extends k m
    → IsPlaced components g m
IsPlaced-after {k = k} p x = record {
  first = p.first;
  last = p.last;
  extends = Extends-trans p.extends x;
  begun = let a = x.grows in let b = p.begun in omega arith;
  there = let a = x.grows in let b = p.there in omega arith;
  node = x.kinds p.last p.there ∙ p.node;
  begins = λ sub at i.
      let e = p.extends in
      let a = e.grows in
      let s = p.begins sub at i in
      let in_k : sub < k.next = omega arith in
      record {
        enters = x.kept p.first sub p.begun s.enters;
        leaves = x.kept sub p.last in_k s.leaves;
        goes_on = λ t l. x.kept p.last t p.there (s.goes_on t l);
        itself = x.kept p.last p.last p.there s.itself;
      };
  itself = λ sub at. x.kept p.last p.last p.there (p.itself sub at);
}

module _ (format : String → String → String) where
  module _ (key : String) (components : ModuleTaskData) (g : TraactGraph) where
    create_module_task-Extends :
        (b : Bool) → Extends g (create_module_task format key components b g)
    unfolding create_module_task
    create_module_task-Extends false = Extends-refl g
    create_module_task-Extends true =
        let r = make_ends format key components g in
        Extends-trans (make_ends-IsChosen format key components g).extends (
          Extends-Linked r.1 (link_module r.0 components r.1.heap)
            (link_module-Linked r.0 components r.1.heap))

    create_module_task-itself :
        (r : ModuleEnds × TraactGraph) (sub : ℕ)
        → IsChosen components g r
        → Memᴰ sub components.begin_components ⊎ Memᴰ sub components.end_components
        → links
            (link_module r.0 components r.1.heap)
            r.0.begin_components_end_task
            r.0.begin_components_end_task
          ≡ true
    create_module_task-itself r sub chosen at = elim (empty_or_some components.begin_components) [
      | inr (x, here) ↦ (link_module-begin r.0 components x r.1.heap here).itself
      | inl none_begin ↦ elim at [
        | inl here ↦
            let full = is_empty-not sub components.begin_components here in cc (full, none_begin)
        | inr here ↦
            subst (λ t. links (link_module r.0 components r.1.heap) t t ≡ true)
              (chosen.alone none_begin) (link_module-end r.0 components sub r.1.heap here).itself
      ]
    ]

    create_module_task-IsPlaced :
        IsPlaced components g (create_module_task format key components true g)
    unfolding create_module_task
    create_module_task-IsPlaced =
        let r = make_ends format key components g in
        let chosen = make_ends-IsChosen format key components g in
        let path = link_module-Linked r.0 components r.1.heap in
        record {
          first = r.0.start_task;
          last = r.0.begin_components_end_task;
          extends = create_module_task-Extends true;
          begun = chosen.started;
          there = chosen.made;
          node = Linked-kind path r.0.begin_components_end_task ∙ chosen.node;
          begins = λ sub at i.
              Surrounds-Extends chosen.extends i (link_module-begin r.0 components sub r.1.heap at);
          itself = λ sub at. create_module_task-itself r sub chosen at;
        }

  create_tasks_and_dependencies-step :
      (module_map : List (String × Bool)) (key : String) (components : ModuleTaskData)
      (modules : List (String × ModuleTaskData)) (g m : TraactGraph)
      → create_tasks_and_dependencies format module_map ((key, components) ∷ modules) g ≡ ok m
      → (b : Bool) × (find_key key module_map ≡ some b)
        × (create_tasks_and_dependencies format module_map modules
              (create_module_task format key components b g)
            ≡ ok m)
  unfolding create_tasks_and_dependencies
  create_tasks_and_dependencies-step module_map key components modules g m e =
      elim (Option-cases (find_key key module_map)) [
        | inl n ↦ absurd (ground (arith, n))
        | inr (b, at) ↦ (b, at, ground (arith, at))
      ]

  create_tasks_and_dependencies-Extends :
      (module_map : List (String × Bool)) (modules : List (String × ModuleTaskData))
      (g m : TraactGraph)
      → create_tasks_and_dependencies format module_map modules g ≡ ok m
      → Extends g m
  unfolding create_tasks_and_dependencies
  create_tasks_and_dependencies-Extends module_map [] g m e =
      subst (Extends g) (cc e) (Extends-refl g)
  create_tasks_and_dependencies-Extends module_map ((key, components) ∷ modules) g m e =
      let (b, _, rest) =
        create_tasks_and_dependencies-step module_map key components modules g m e in
      Extends-trans (create_module_task-Extends key components g b) (
        create_tasks_and_dependencies-Extends module_map modules
          (create_module_task format key components b g) m rest)

  -- When `createTasksAndDependencies` returns, for each module that uses constraints, one task leads
  -- to every component of the graph that begins, each such component leads to a task that runs the
  -- module, and that task leads to all that the component led to before; the tasks and links that
  -- were there stay. But if the module has a component at all, its task is also among its own
  -- successors.
  pub create_tasks_and_dependencies-IsPlaced :
      (module_map : List (String × Bool)) (modules : List (String × ModuleTaskData))
      (g m : TraactGraph) (key : String) (components : ModuleTaskData)
      → create_tasks_and_dependencies format module_map modules g ≡ ok m
      → Memᴰ (key, components) modules
      → find_key key module_map ≡ some true
      → IsPlaced components g m
  create_tasks_and_dependencies-IsPlaced module_map [] g m key components e at constrained =
      absurd (Memᴰ.not-nil at)
  create_tasks_and_dependencies-IsPlaced module_map ((k, c) ∷ modules) g m key components e at
        constrained =
      let (b, found, rest) = create_tasks_and_dependencies-step module_map k c modules g m e in
      let next = create_module_task format k c b g in
      elim (Memᴰ.cases_cons at) [
        | inl same ↦
            let same_key : key ≡ k = ap (λ p. p.0) same in
            let on : b ≡ true = cc (found, constrained, same_key) in
            let placed =
              subst (λ b. IsPlaced c g (create_module_task format k c b g)) (sym on)
                (create_module_task-IsPlaced k c g) in
            subst (λ d. IsPlaced d g m) (sym (ap (λ p. p.1) same))
              (IsPlaced-after placed
                (create_tasks_and_dependencies-Extends module_map modules next m rest))
        | inr later ↦ IsPlaced-before (create_module_task-Extends k c g b) (
            create_tasks_and_dependencies-IsPlaced module_map modules next m key components rest
              later constrained)
      ]
