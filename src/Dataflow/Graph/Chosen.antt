-- ===== src/Dataflow/Graph/Chosen.antt =====
-- src/traact/dataflow/graph/builder/ModuleGraphBuilder.cpp: the tasks that are made for one module.
use Prim.Native.String.{String}
use mathlib.Core.List.{Memᴰ}
use traact_core.Prelude.{ℕ, ◌<◌, ◌≤◌, ◌≡◌, refl, ◌∙◌, inl, inr, arith, true, false, Bool-cases}
use traact_core.Dataflow.Graph.{Heap, TaskKind, TraactGraph, make_task, succeed_inter_time_step}
use traact_core.Dataflow.Graph.Links.{links}
use traact_core.Dataflow.Graph.Grows.{Linked, Linked-trans}
use traact_core.Dataflow.Graph.Modules.{
  ModuleTaskData, link_components, is_empty, ModuleEnds, link_module, make_with_middle,
  make_without_middle, make_ends,
}
use traact_core.Dataflow.Graph.Surround.{
  Linked-links, Linked-kind, Surrounds, Surrounds-Linked, link_components-Linked,
  link_components-Surrounds,
}

-- The tasks that are there stay, and so do their links.
pub record Extends (g m : TraactGraph) : Type 0 where
  pub grows : g.next ≤ m.next
  pub kept : (x y : ℕ) → x < g.next → links g.heap x y ≡ true → links m.heap x y ≡ true
  pub kinds : (x : ℕ) → x < g.next → (m.heap x).kind ≡ (g.heap x).kind

pub Extends-refl : (g : TraactGraph) → Extends g g
Extends-refl g = record { grows = omega arith; kept = λ x y i l. l; kinds = λ x i. refl }

pub Extends-trans : {g k m : TraactGraph} → Extends g k → Extends k m → Extends g m
Extends-trans p q = record {
  grows = let a = p.grows in let b = q.grows in omega arith;
  kept = λ x y i l. let a = p.grows in q.kept x y (omega arith) (p.kept x y i l);
  kinds = λ x i. let a = p.grows in q.kinds x (omega arith) ∙ p.kinds x i;
}

pub Extends-make_task :
    (id : String) (kind : TaskKind) (g : TraactGraph) → Extends g (make_task id kind g).1
unfolding make_task links
Extends-make_task id kind g = record {
  grows = omega arith;
  kept = λ x y i l. ground arith;
  kinds = λ x i. ground arith;
}

pub Extends-Linked :
    (g : TraactGraph) (h : Heap) → Linked g.heap h → Extends g (record g { heap = h })
Extends-Linked g h p = record {
  grows = omega arith;
  kept = λ x y i. Linked-links p x y;
  kinds = λ x i. Linked-kind p x;
}

-- What the choice of tasks for a module gives.
pub record IsChosen (components : ModuleTaskData) (g : TraactGraph) (r : ModuleEnds × TraactGraph)
    : Type 0 where
  pub extends : Extends g r.1
  pub node : (r.1.heap r.0.begin_components_end_task).kind ≡ TaskKind.module_task
  pub started : r.0.start_task < r.1.next
  pub made : r.0.begin_components_end_task < r.1.next
  pub alone :
      is_empty components.begin_components ≡ true → r.0.end_task ≡ r.0.begin_components_end_task

module _ (format : String → String → String) (key : String) (components : ModuleTaskData)
    (g : TraactGraph) where
  with_middle-IsChosen :
      is_empty components.begin_components ≡ false
      → IsChosen components g (make_with_middle format key g)
  unfolding make_with_middle make_task links
  with_middle-IsChosen full = record {
    extends = record {
      grows = omega arith;
      kept = λ x y i l. ground arith;
      kinds = λ x i. ground arith;
    };
    node = ground arith;
    started = omega arith;
    made = omega arith;
    alone = λ e. cc (e, full);
  }

  without_middle-IsChosen : IsChosen components g (make_without_middle format key g)
  unfolding make_without_middle make_task links
  without_middle-IsChosen = record {
    extends = record {
      grows = omega arith;
      kept = λ x y i l. ground arith;
      kinds = λ x i. ground arith;
    };
    node = ground arith;
    started = omega arith;
    made = omega arith;
    alone = λ e. refl;
  }

  pub make_ends-IsChosen : IsChosen components g (make_ends format key components g)
  unfolding make_ends
  make_ends-IsChosen = elim (Bool-cases (is_empty components.begin_components)) [
    | inl none_begin ↦ rw none_begin without_middle-IsChosen
    | inr full ↦ elim (Bool-cases (is_empty components.end_components)) [
      | inl none_end ↦ rw (full, none_end) without_middle-IsChosen
      | inr both ↦ rw (full, both) (with_middle-IsChosen full)
    ]
  ]

pub link_module-Linked :
    (e : ModuleEnds) (components : ModuleTaskData) (h : Heap)
    → Linked h (link_module e components h)
unfolding link_module
link_module-Linked e components h =
    Linked-trans
      (Linked-trans (Linked.repeated Linked.unchanged e.end_task e.start_task) (
        link_components-Linked e.start_task e.begin_components_end_task components.begin_components
          (succeed_inter_time_step e.start_task e.end_task h)))
      (link_components-Linked e.end_components_start_task e.end_task components.end_components (
        link_components e.start_task e.begin_components_end_task components.begin_components
          (succeed_inter_time_step e.start_task e.end_task h)))

pub link_module-begin :
    (e : ModuleEnds) (components : ModuleTaskData) (sub : ℕ) (h : Heap)
    → Memᴰ sub components.begin_components
    → Surrounds e.start_task e.begin_components_end_task sub h (link_module e components h)
unfolding link_module
link_module-begin e components sub h at =
    let h1 = succeed_inter_time_step e.start_task e.end_task h in
    Surrounds-Linked (Linked.repeated Linked.unchanged e.end_task e.start_task)
      (link_components-Surrounds e.start_task e.begin_components_end_task sub
        components.begin_components h1 at)
      (link_components-Linked e.end_components_start_task e.end_task components.end_components
        (link_components e.start_task e.begin_components_end_task components.begin_components h1))

pub link_module-end :
    (e : ModuleEnds) (components : ModuleTaskData) (sub : ℕ) (h : Heap)
    → Memᴰ sub components.end_components
    → Surrounds e.end_components_start_task e.end_task sub h (link_module e components h)
unfolding link_module
link_module-end e components sub h at =
    let h1 = succeed_inter_time_step e.start_task e.end_task h in
    Surrounds-Linked
      (Linked-trans (Linked.repeated Linked.unchanged e.end_task e.start_task) (
        link_components-Linked e.start_task e.begin_components_end_task components.begin_components
          h1))
      (link_components-Surrounds e.end_components_start_task e.end_task sub
        components.end_components
        (link_components e.start_task e.begin_components_end_task components.begin_components h1)
        at)
      Linked.unchanged
