-- ===== src/Dataflow/Graph/Tasks.antt =====
-- src/traact/dataflow/graph/builder/ComponentGraphBuilder.cpp: the task graph that the builder makes
-- out of an empty one.
use Prim.Native.String.{String}
use traact_core.Prelude.{
  ℕ, ◌<◌, ◌≡◌, refl, subst, ◌∙◌, ◌↔◌, inl, inr, arith, true, false, List, [], ◌∷◌, some,
}
use traact_core.Prelude.Int.{ℤ}
use traact_core.Prelude.Maps.{find_key, find_key-emplace_cases}
use traact_core.Exceptions.{ok, >>=-eq-ok}
use traact_core.Pattern.Instance.{get_component_type}
use traact_core.Pattern.Graph.{GraphInstance}
use traact_core.Dataflow.Graph.{
  Heap, TaskKind, TraactGraph, make_task, has, succeed, precede, succeed_inter_time_step,
  empty_graph,
}
use traact_core.Dataflow.Graph.Links.{links, links_back, links_inter, links_inter_back}
use traact_core.Dataflow.Graph.Grows.{Linked, IsConverse, Linked-IsConverse}
use traact_core.Component.{GraphComponent}
use traact_core.Dataflow.Graph.Components.{
  create_task, create_tasks, prepare_components, create_dependencies, build_components,
}
use traact_core.Dataflow.Graph.Dependencies.{All}
use traact_core.Dataflow.Graph.Order.{Wanted, Repeats, create_dependencies-Grows}

-- No task is linked.
pub record IsBlank (h : Heap) : Type 0 where
  pub before : (x : ℕ) → (h x).predecessors ≡ []
  pub after : (x : ℕ) → (h x).successors ≡ []
  pub before_inter : (x : ℕ) → (h x).predecessors_inter_time_step ≡ []
  pub after_inter : (x : ℕ) → (h x).successors_inter_time_step ≡ []

-- The task that a name stands for has that name as its id.
pub record IsNamed (g : TraactGraph) : Type 0 where
  pub named : (id : String) (x : ℕ) → find_key id g.tasks ≡ some x → (g.heap x).id ≡ id
  pub taken : (id : String) (x : ℕ) → find_key id g.tasks ≡ some x → x < g.next

module _ (id : String) (kind : TaskKind) (g : TraactGraph) where
  pub make_task-IsBlank : IsBlank g.heap → IsBlank (make_task id kind g).1.heap
  unfolding make_task
  make_task-IsBlank b = record {
    before = λ x. ground (arith, b.before x);
    after = λ x. ground (arith, b.after x);
    before_inter = λ x. ground (arith, b.before_inter x);
    after_inter = λ x. ground (arith, b.after_inter x);
  }

  pub make_task-IsNamed : IsNamed g → IsNamed (make_task id kind g).1
  unfolding make_task
  make_task-IsNamed n = record {
    named = λ j x e. elim (find_key-emplace_cases id j g.next x g.tasks e) [
      | inl (p, q) ↦ ground (arith, p, q)
      | inr old ↦ ground (arith, n.named j x old, n.taken j x old)
    ];
    taken = λ j x e. elim (find_key-emplace_cases id j g.next x g.tasks e) [
      | inl (p, q) ↦ omega arith
      | inr old ↦ omega (arith, n.taken j x old)
    ];
  }

pub IsBlank-IsConverse : {h : Heap} → IsBlank h → IsConverse h
unfolding links links_back links_inter links_inter_back has
IsBlank-IsConverse b = record {
  within = λ x y. rw (b.after x, b.before y);
  between = λ x y. rw (b.after_inter x, b.before_inter y);
}

pub IsBlank-links : {h : Heap} (x y : ℕ) → IsBlank h → links h x y ≡ false
unfolding links has
IsBlank-links x y b = rw (b.after x)

pub IsBlank-links_inter : {h : Heap} (x y : ℕ) → IsBlank h → links_inter h x y ≡ false
unfolding links_inter has
IsBlank-links_inter x y b = rw (b.after_inter x)

pub Linked-id : {h k : Heap} → Linked h k → (x : ℕ) → (k x).id ≡ (h x).id
unfolding succeed precede succeed_inter_time_step
Linked-id Linked.unchanged x = refl
Linked-id (Linked.preceded p a b) x = ground (arith, Linked-id p x, Linked-id p a, Linked-id p b)
Linked-id (Linked.succeeded p a b) x = ground (arith, Linked-id p x, Linked-id p a, Linked-id p b)
Linked-id (Linked.repeated p a b) x = ground (arith, Linked-id p x, Linked-id p a, Linked-id p b)

create_tasks-keeps :
    (td : ℤ) (cs : List GraphComponent) (g m : TraactGraph)
    → create_tasks td cs g ≡ ok m
    → IsBlank g.heap × IsNamed g
    → IsBlank m.heap × IsNamed m
unfolding create_tasks
create_tasks-keeps td [] g m e (b, n) = subst (λ k. IsBlank k.heap × IsNamed k) (cc e) (b, n)
create_tasks-keeps td (c ∷ cs) g m e (b, n) =
    let (type, _, e1) = >>=-eq-ok (get_component_type td c.pattern) _ e in
    let (kind, _, e2) = >>=-eq-ok (create_task type) _ e1 in
    let id = c.pattern.instance_id in
    create_tasks-keeps td cs (make_task id kind g).1 m e2
      (make_task-IsBlank id kind g b, make_task-IsNamed id kind g n)

empty_graph-fresh : IsBlank empty_graph.heap × IsNamed empty_graph
unfolding find_key
empty_graph-fresh = (
  record {
    before = λ x. refl;
    after = λ x. refl;
    before_inter = λ x. refl;
    after_inter = λ x. refl;
  },
  record { named = λ id x e. cc; taken = λ id x e. cc },
)

module _ (format : String → ℕ → String → String) (graph : GraphInstance) (td : ℤ) where
  -- What a task graph is to hold for the components `all`.
  pub record IsOrdered (all : List GraphComponent) (g : TraactGraph) : Type 0 where
    pub order :
        (x y : ℕ) → (links g.heap x y ≡ true) ↔ All (Wanted format graph td all g.tasks) all x y
    pub repeats :
        (x y : ℕ) → (links_inter g.heap x y ≡ true) ↔ All (Repeats format graph td g.tasks) all x y
    pub converse : IsConverse g.heap
    pub ids : IsNamed g

  -- From an empty task graph, when `buildGraph` returns: a task leads to another one exactly if an
  -- output of the first one's component is connected to an input of the second one's, or if the
  -- second is a synchronised source and the first the first asynchronous source; exactly the tasks
  -- of serial components are followed by themselves in the next time step; predecessors are the
  -- converse of successors; and a task that a name stands for has that name.
  pub build_components-IsOrdered :
      (config : List (ℕ × String)) (all : List GraphComponent) (callbacks : List (String × ℕ))
      (g : TraactGraph)
      → build_components format graph td config all empty_graph ≡ ok (callbacks, g)
      → IsOrdered all g
  unfolding build_components
  build_components-IsOrdered config all callbacks g e =
      let (called, _, e1) = >>=-eq-ok (prepare_components td config all) _ e in
      let (g1, made, e2) = >>=-eq-ok (create_tasks td all empty_graph) _ e1 in
      let (heap, linked, e3) =
        >>=-eq-ok (create_dependencies format graph td all g1.tasks all g1.heap) _ e2 in
      let (blank, names) = create_tasks-keeps td all empty_graph g1 made empty_graph-fresh in
      let grown = create_dependencies-Grows format graph td all g1.tasks all g1.heap heap linked in
      subst (IsOrdered all) (cc e3) (record {
        order = λ x y. (
          λ l. elim ((grown.inside x y).0 l) [
            | inl old ↦ let no = IsBlank-links x y blank in cc (old, no)
            | inr w ↦ w
          ],
          λ w. (grown.inside x y).1 (inr w),
        );
        repeats = λ x y. (
          λ l. elim ((grown.across x y).0 l) [
            | inl old ↦ let no = IsBlank-links_inter x y blank in cc (old, no)
            | inr w ↦ w
          ],
          λ w. (grown.across x y).1 (inr w),
        );
        converse = Linked-IsConverse grown.path (IsBlank-IsConverse blank);
        ids = record {
          named = λ id x at. Linked-id grown.path x ∙ names.named id x at;
          taken = names.taken;
        };
      })
