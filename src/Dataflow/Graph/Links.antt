-- ===== src/Dataflow/Graph/Links.antt =====
-- src/traact/dataflow/graph/task/TraactTask.cpp: what `succeed` and `precede` change.
use traact_core.Prelude.{ℕ, ◌≡◌, arith, ◌==◌, Bool, ◌&&◌, ◌||◌, List, [], ◌∷◌}
use traact_core.Dataflow.Graph.{
  Heap, has, emplace_ref, succeed, precede, succeed_inter_time_step, precede_inter_time_step,
}

pub has-emplace_ref : (x y : ℕ) (xs : List ℕ) → has x (emplace_ref y xs) ≡ (y == x || has x xs)
unfolding has emplace_ref
has-emplace_ref x y [] = ground arith
has-emplace_ref x y (z ∷ zs) = ground (arith, has-emplace_ref x y zs)

-- The four relations of a heap of tasks.
unfoldable pub links : Heap → ℕ → ℕ → Bool
links h x y = has y (h x).successors

unfoldable pub links_back : Heap → ℕ → ℕ → Bool
links_back h x y = has x (h y).predecessors

unfoldable pub links_inter : Heap → ℕ → ℕ → Bool
links_inter h x y = has y (h x).successors_inter_time_step

unfoldable pub links_inter_back : Heap → ℕ → ℕ → Bool
links_inter_back h x y = has x (h y).predecessors_inter_time_step

-- How one pair of tasks is linked.
abbrev pub linked : Bool → ℕ → ℕ → ℕ → ℕ → Bool
linked old a b x y = a == x && b == y || old

module _ (a b : ℕ) (h : Heap) (x y : ℕ) where
  pub links-precede : links (precede a b h) x y ≡ linked (links h x y) a b x y
  unfolding links precede
  links-precede = ground (arith, has-emplace_ref y b (h x).successors)

  pub links-succeed : links (succeed b a h) x y ≡ linked (links h x y) a b x y
  unfolding links succeed
  links-succeed = ground (arith, has-emplace_ref y b (h x).successors)

  pub links_back-precede : links_back (precede a b h) x y ≡ linked (links_back h x y) a b x y
  unfolding links_back precede
  links_back-precede = ground (arith, has-emplace_ref x a (h y).predecessors)

  pub links_back-succeed : links_back (succeed b a h) x y ≡ linked (links_back h x y) a b x y
  unfolding links_back succeed
  links_back-succeed = ground (arith, has-emplace_ref x a (h y).predecessors)

  pub links_inter-succeed :
      links_inter (succeed_inter_time_step b a h) x y ≡ linked (links_inter h x y) a b x y
  unfolding links_inter succeed_inter_time_step
  links_inter-succeed = ground (arith, has-emplace_ref y b (h x).successors_inter_time_step)

  pub links_inter-precede :
      links_inter (precede_inter_time_step a b h) x y ≡ linked (links_inter h x y) a b x y
  unfolding links_inter precede_inter_time_step
  links_inter-precede = ground (arith, has-emplace_ref y b (h x).successors_inter_time_step)

  pub links_inter_back-succeed :
      links_inter_back (succeed_inter_time_step b a h) x y ≡ linked (links_inter_back h x y) a b x y
  unfolding links_inter_back succeed_inter_time_step
  links_inter_back-succeed = ground (arith, has-emplace_ref x a (h y).predecessors_inter_time_step)

  pub links_inter_back-precede :
      links_inter_back (precede_inter_time_step a b h) x y ≡ linked (links_inter_back h x y) a b x y
  unfolding links_inter_back precede_inter_time_step
  links_inter_back-precede = ground (arith, has-emplace_ref x a (h y).predecessors_inter_time_step)
